-- ===== src/Flp/SumRoundTrip.antt =====
-- Encoding and truncation of the type Sum of src/flp/types.rs.
use Prim.Native.Nat.{bit_and}
use libprio_rs.Common.{
  ℕ, zero, suc, ◌+◌, ◌-◌, ◌*◌, ◌/◌, ◌%◌, ◌^◌, ◌≤◌, ◌<◌, ◌≡◌, refl, sym, ap, ◌∙◌, List, [], ◌∷◌,
  arith, length, Bool, ltb, lt→ltb, le→leb, lt→leb, ◌==◌, ==_self, pow_pos, Bool-cases, inl, inr,
  ltb→lt,
}
use libprio_rs.Common.Bits.{bit_and-ones}
use libprio_rs.Outcome.{ok, err}
use libprio_rs.Fp.{mul, montgomery, residue}
use libprio_rs.Fp.Element.{
  Represents, montgomery_reduced, add-Represents, mul-Represents, zero-Represents,
  residue-Represents,
}
use libprio_rs.Field.{FieldType, from_integer, into_integer, modulus, one}
use libprio_rs.Field.Codec.{IsFieldType}
use libprio_rs.Field.Arithmetic.{integer-round_trip}
use libprio_rs.Field.Elementwise.{IsVector}
use libprio_rs.Flp.{encode_error}
use libprio_rs.Flp.Types.{
  Sum, sum_new, sum_encode, encode_bits, sum_truncate, decode_bits, truncate_call_check, shift_left,
  shift_right, power_of_two,
}
use mathlib.Core.Path.{subst}
use native.Mathlib.Nat.{
  pow-suc, pow-le-pow_right, div-div-eq-div-mul, le-div_iff_mul-le, div-eq_of_lt, mod-eq_of_lt,
}

two_pow-lt : (k : ℕ) → k < 2 ^ k
two_pow-lt zero = omega arith
two_pow-lt (suc k) = omega (arith, two_pow-lt k, pow-suc 2 k)

exponent-lt : (k m : ℕ) → 2 ^ k < 2 ^ m → k < m
exponent-lt k m h = elim (Bool-cases (ltb k m)) [
  | inl below ↦ ltb→lt k m below
  | inr above ↦
      absurd (omega (arith, pow-le-pow_right {n = 2} (omega arith) {i = m} {j = k} (ground arith)))
]

regroup : (q w : ℕ) → q % 2 * w + q / 2 * (w * 2) ≡ q * w
regroup q w =
    let split : q ≡ q % 2 + q / 2 * 2 = omega arith in
    let e : q * w ≡ (q % 2 + q / 2 * 2) * w = ap (λ (t : ℕ). t * w) split in omega (arith, e)

-- One more bit, with the place of the next.
next_bit : (m l : ℕ) → m / 2 ^ l % 2 * 2 ^ l + m / 2 ^ suc l * 2 ^ suc l ≡ m / 2 ^ l * 2 ^ l
next_bit m l =
    let e : m / 2 ^ suc l ≡ m / 2 ^ l / 2 =
      ap (λ (t : ℕ). m / t) (pow-suc 2 l) ∙ sym (div-div-eq-div-mul m (2 ^ l) 2) in
    rw (e, pow-suc 2 l) (regroup (m / 2 ^ l) (2 ^ l))

module _ (f : FieldType) (ok_f : IsFieldType f) (bits : ℕ) (short : bits < 64)
    (fits : 2 ^ bits ≤ f.fp.p) where
  open f use {fp, int_bits}
  open fp use {p}

  bits-lt : bits < int_bits
  bits-lt = exponent-lt bits int_bits (omega (arith, ok_f.p_lt_int, fits))

  place-lt : (l : ℕ) → l < bits → 2 ^ l < p
  place-lt l h = omega (
    arith,
    fits,
    pow-suc 2 l,
    pow_pos 2 l (omega arith),
    pow-le-pow_right {n = 2} (omega arith) {i = suc l} {j = bits} h,
  )

  power_of_two_lem : (l : ℕ) → l < bits → power_of_two f l ≡ ok (2 ^ l)
  unfolding power_of_two
  power_of_two_lem l h =
      rw
        (
          lt→ltb l 64 (omega arith),
          lt→ltb (2 ^ l) (2 ^ int_bits) (omega (arith, place-lt l h, ok_f.p_lt_int)),
        )
        refl

  -- The bits of `m` from the l-th on, encoded as reduced elements and decoded again.
  encode_bits_lem :
      (m l n : ℕ)
      → l + n ≤ bits
      → (xs : List ℕ) × (encode_bits f 1 m l n ≡ ok xs)
        × IsVector f n xs
        × ((a acc : ℕ)
            → m < 2 ^ (l + n)
            → Represents fp acc a
            → (d : ℕ) × (decode_bits f l acc xs ≡ ok d) × Represents fp d (a + m / 2 ^ l * 2 ^ l))
  unfolding encode_bits decode_bits shift_right from_integer
  encode_bits_lem m l zero h = (
    [],
    refl,
    (refl, tt),
    λ a acc small r.
        let none_left : m / 2 ^ l ≡ 0 =
          div-eq_of_lt
            (omega (arith, ap (λ (k : ℕ). 2 ^ k) {x = l + 0} {y = l} (omega arith), small)) in
        let same : a ≡ a + m / 2 ^ l * 2 ^ l = rw none_left (omega arith) in
        (acc, refl, subst (Represents fp acc) same r),
  )
  encode_bits_lem m l (suc n) h =
      let (xs, e, (len, whole), back) = encode_bits_lem m (suc l) n (omega arith) in
      let bit : bit_and (m / 2 ^ l) 1 ≡ m / 2 ^ l % 2 = bit_and-ones 1 (m / 2 ^ l) in
      let rb =
        montgomery_reduced fp ok_f.parameters (m / 2 ^ l % 2)
          (omega (arith, fits, two_pow-lt bits)) in
      let rw_l = montgomery_reduced fp ok_f.parameters (2 ^ l) (place-lt l (omega arith)) in
      let x = montgomery fp (m / 2 ^ l % 2) in
      (
        x ∷ xs,
        rw (lt→ltb l int_bits (omega (arith, bits-lt)), e, bit) refl,
        (ap suc len, (rb.reduced, whole)),
        λ a acc small r.
            let more =
              add-Represents fp ok_f.parameters acc (mul fp (montgomery fp (2 ^ l)) x) a
                (2 ^ l * (m / 2 ^ l % 2)) r
                (mul-Represents fp ok_f.parameters (montgomery fp (2 ^ l)) x (2 ^ l) (m / 2 ^ l % 2)
                  rw_l rb) in
            let small' : m < 2 ^ (suc l + n) =
              omega (
                arith,
                ap (λ (k : ℕ). 2 ^ k) {x = l + suc n} {y = suc l + n} (omega arith),
                small,
              ) in
            let (d, e', rd) = back (a + 2 ^ l * (m / 2 ^ l % 2)) _ small' more in
            let same : a + 2 ^ l * (m / 2 ^ l % 2) + m / 2 ^ suc l * 2 ^ suc l
                ≡ a + m / 2 ^ l * 2 ^ l =
              omega (arith, next_bit m l) in
            (d, rw (power_of_two_lem l (omega arith)) e', subst (Represents fp d) same rd),
      )

  module _ (unit : ℕ) (one_lem : one f ≡ ok unit) (unit_lem : into_integer f unit ≡ ok 1) where
    zero_integer : into_integer f 0 ≡ ok 0
    zero_integer =
        let p_positive : 0 < p = omega (arith, ok_f.parameters.r2_lt) in
        let (_, _, e, _) = integer-round_trip f ok_f 0 0 p_positive p_positive in
        let z : residue fp 0 ≡ 0 =
          residue-Represents fp ok_f.parameters 0 0 (zero-Represents fp ok_f.parameters)
          ∙ mod-eq_of_lt p_positive in
        e ∙ ap ok z

    positive_quotient : (p / 2 ^ bits == 0) ≡ Bool.false
    positive_quotient =
        let q : 1 ≤ p / 2 ^ bits =
          (le-div_iff_mul-le {k = 2 ^ bits} {x = 1} {y = p} (pow_pos 2 bits (omega arith))).1
            (omega (arith, fits)) in
        ground arith

    sum_new_lem : sum_new f bits ≡ ok (record { bits = bits; one = 1; max_summand = 2 ^ bits - 1 })
    unfolding sum_new shift_left shift_right modulus
    sum_new_lem =
        let whole : p % 2 ^ int_bits ≡ p = mod-eq_of_lt ok_f.p_lt_int in
        let high : 1 * 2 ^ bits % 2 ^ int_bits ≡ 2 ^ bits =
          ap (λ (t : ℕ). t % 2 ^ int_bits) {x = 1 * 2 ^ bits} {y = 2 ^ bits} (omega arith)
          ∙ mod-eq_of_lt (omega (arith, fits, ok_f.p_lt_int)) in
        rw
          (
            lt→ltb bits (2 ^ int_bits) (omega (arith, bits-lt, two_pow-lt int_bits)),
            lt→ltb bits int_bits bits-lt,
            whole,
            zero_integer,
            positive_quotient,
            one_lem,
            unit_lem,
            high,
            le→leb 1 (2 ^ bits) (pow_pos 2 bits (omega arith)),
          )
          refl

    truncate_lem :
        (self : Sum) (input : List ℕ) (d : ℕ)
        → length input ≡ self.bits
        → decode_bits f 0 0 input ≡ ok d
        → sum_truncate f self input ≡ ok (d ∷ [])
    unfolding sum_truncate truncate_call_check
    truncate_lem self input d len e = rw (len, ==_self self.bits, e) refl

    -- `Sum::new` takes every number of bits below 64 whose integers the field holds. Its `encode`
    -- gives every summand below 2^bits as a vector of that many reduced elements, whose truncation
    -- is one element, and the integer of that element is the summand; every other summand is
    -- refused.
    pub sum-round_trip :
        (self : Sum) × (sum_new f bits ≡ ok self)
        × ((summand : ℕ)
            → summand < 2 ^ bits
            → (input : List ℕ) × (d : ℕ) × (sum_encode f self summand ≡ ok input)
              × IsVector f bits input
              × (sum_truncate f self input ≡ ok (d ∷ []))
              × (into_integer f d ≡ ok summand))
        × ((summand : ℕ) → 2 ^ bits ≤ summand → sum_encode f self summand ≡ err encode_error)
    unfolding sum_encode
    sum-round_trip = (
      record { bits = bits; one = 1; max_summand = 2 ^ bits - 1 },
      sum_new_lem,
      λ m small.
          let (xs, e, (len, whole), back) = encode_bits_lem m 0 bits (omega arith) in
          let (d, e', rd) =
            back 0 0
              (omega (arith, ap (λ (k : ℕ). 2 ^ k) {x = 0 + bits} {y = bits} (omega arith), small))
              (zero-Represents fp ok_f.parameters) in
          let (_, _, out, _) =
            integer-round_trip f ok_f 0 d (omega (arith, ok_f.parameters.r2_lt)) rd.reduced in
          let value : residue fp d ≡ m =
            residue-Represents fp ok_f.parameters d (0 + m / 2 ^ 0 * 2 ^ 0) rd
            ∙ ap (λ (t : ℕ). t % p) {x = 0 + m / 2 ^ 0 * 2 ^ 0} {y = m} (omega arith)
            ∙ mod-eq_of_lt (omega (arith, fits, small)) in
          (
            xs,
            d,
            rw (le→leb m (2 ^ bits - 1) (omega arith)) e,
            (len, whole),
            truncate_lem _ xs d len e',
            out ∙ ap ok value,
          ),
      λ m large.
          rw (lt→leb m (2 ^ bits - 1) (omega (arith, pow_pos 2 bits (omega arith), large))) refl,
    )
