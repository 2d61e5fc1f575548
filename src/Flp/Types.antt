-- ===== src/Flp/Types.antt =====
-- src/flp/types.rs: how the types Count, Sum and Histogram encode a measurement and truncate an input.
-- Their validity circuits, and with these the field `range_checker`, are left out.
use Prim.Native.Nat.{bit_and}
use libprio_rs.Common.{
  ℕ, zero, suc, ◌+◌, ◌-◌, ◌*◌, ◌/◌, ◌%◌, ◌^◌, List, [], ◌∷◌, Bool, not, ◌&&◌, ltb, leb, ◌==◌,
  if◌then◌else◌, length, set, replicate,
}
use libprio_rs.Outcome.{Outcome, ok, panicked, ◌>>=◌, ◌>>◌, guard, map_err}
use libprio_rs.Field.{FieldType, plus, times, from_integer, into_integer, modulus, one}
use libprio_rs.Flp.{FlpError, encode_error, truncate_error}

pub record Sum : Type 0 where
  pub bits : ℕ
  pub one : ℕ
  pub max_summand : ℕ

pub record Histogram : Type 0 where
  pub buckets : List ℕ

-- A part that has no errors, but can panic.
abbrev pub infallible : Outcome ⊥ ℕ → Outcome FlpError ℕ
infallible m = map_err (λ e. absurd e) m

unfoldable pub truncate_call_check : ℕ → List ℕ → Outcome FlpError (Unit {0})
truncate_call_check input_len input = guard (length input == input_len) truncate_error

-- Whether each boundary is above the one before.
unfoldable pub in_order : List ℕ → Bool
in_order [] = Bool.true
in_order (b ∷ []) = Bool.true
in_order (b ∷ c ∷ buckets) = ltb b c && in_order (c ∷ buckets)

-- What `binary_search` gives in either case on boundaries in order: how many are below.
unfoldable pub bucket_of : List ℕ → ℕ → ℕ
bucket_of [] measurement = 0
bucket_of (b ∷ buckets) measurement =
    if ltb b measurement then suc (bucket_of buckets measurement) else 0

unfoldable pub histogram_new : List ℕ → Outcome FlpError Histogram
histogram_new buckets = do
  guard (ltb (length buckets) (2 ^ 32 - 1)) encode_error
  guard (in_order buckets) encode_error
  ok (record { buckets = buckets })

module _ (f : FieldType) where
  -- `x << k` and `x >> k` of the field's integers, which panic where k is their width at least.
  unfoldable pub shift_left : ℕ → ℕ → Outcome FlpError ℕ
  shift_left x k = if ltb k f.int_bits then ok (x * 2 ^ k % 2 ^ f.int_bits) else panicked

  unfoldable pub shift_right : ℕ → ℕ → Outcome FlpError ℕ
  shift_right x k = if ltb k f.int_bits then ok (x / 2 ^ k) else panicked

  -- `F::Integer::try_from(1 << l).unwrap()`, the shift that of a `usize`.
  unfoldable pub power_of_two : ℕ → Outcome FlpError ℕ
  power_of_two l = if ltb l 64 && ltb (2 ^ l) (2 ^ f.int_bits) then ok (2 ^ l) else panicked

  unfoldable pub count_encode : ℕ → Outcome FlpError (List ℕ)
  count_encode value = do guard (leb value 1) encode_error; ok (from_integer f value ∷ [])

  unfoldable pub count_truncate : List ℕ → Outcome FlpError (List ℕ)
  count_truncate input = do truncate_call_check 1 input; ok input

  unfoldable pub sum_new : ℕ → Outcome FlpError Sum
  sum_new bits = do
    guard (ltb bits (2 ^ f.int_bits)) encode_error
    shifted ← shift_right (modulus f) bits
    none ← infallible (into_integer f 0)
    guard (not (shifted == none)) encode_error
    elem ← infallible (one f)
    unit ← infallible (into_integer f elem)
    high ← shift_left unit bits
    max ← (if leb unit high then ok (high - unit) else panicked)
    ok (record { bits = bits; one = unit; max_summand = max })

  -- The loop over the bits of the summand, of which `n` are left.
  unfoldable pub encode_bits : (one summand l n : ℕ) → Outcome FlpError (List ℕ)
  encode_bits unit summand l zero = ok []
  encode_bits unit summand l (suc n) = do
    w ← shift_right summand l
    rest ← encode_bits unit summand (suc l) n
    ok (from_integer f (bit_and w unit) ∷ rest)

  unfoldable pub sum_encode : Sum → ℕ → Outcome FlpError (List ℕ)
  sum_encode self summand = do
    guard (leb summand self.max_summand) encode_error
    encode_bits self.one summand 0 self.bits

  -- The loop over the bits of the input, from the l-th on.
  unfoldable pub decode_bits : (l decoded : ℕ) → List ℕ → Outcome FlpError ℕ
  decode_bits l decoded [] = ok decoded
  decode_bits l decoded (bit ∷ input) = do
    w ← power_of_two l
    decode_bits (suc l) (plus f decoded (times f (from_integer f w) bit)) input

  unfoldable pub sum_truncate : Sum → List ℕ → Outcome FlpError (List ℕ)
  sum_truncate self input = do
    truncate_call_check self.bits input
    decoded ← decode_bits 0 0 input
    ok (decoded ∷ [])

  unfoldable pub histogram_encode : Histogram → ℕ → Outcome FlpError (List ℕ)
  histogram_encode self measurement = do
    unit ← infallible (one f)
    ok (set (replicate (length self.buckets + 1) 0) (bucket_of self.buckets measurement) unit)

  unfoldable pub histogram_truncate : Histogram → List ℕ → Outcome FlpError (List ℕ)
  histogram_truncate self input = do truncate_call_check (length self.buckets + 1) input; ok input
