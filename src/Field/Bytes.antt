-- ===== src/Field/Bytes.antt =====
-- The loops over an element's bytes in src/field.rs: digits in base 256 in either order.
use Prim.Native.Nat.{bit_and, bit_or}
use libprio_rs.Common.{
  ℕ, zero, suc, ◌*◌, ◌/◌, ◌%◌, ◌^◌, ◌≤◌, ◌<◌, ◌≡◌, refl, sym, ap, ◌∙◌, some, List, arith, length,
  get_elem?, length-replicate, Bool-cases, inl, inr, ◌==◌, All,
}
use libprio_rs.Common.Bits.{bit_and-ones, bit_or-shifted}
use libprio_rs.Common.Words.{shl128}
use libprio_rs.Outcome.{ok}
use libprio_rs.Field.{
  index, FieldType, big_endian, little_endian, byte_index, load_loop, store_loop, FieldError,
  byte_place,
}
use libprio_rs.Field.Digits.{
  table, length-table, get_elem?-table, table_unique, get_elem?-set, get_elem?-set_other,
  length-set, digit, number, number-lt, digit-number, number-digit, shift_256, entry, entry-lt,
  get_elem?-entry,
}
use native.Mathlib.Nat.{mod-eq_of_lt, pow-le-pow_right}

-- Index and significance of a byte determine each other.
byte_index-involutive :
    (f : FieldType) (i : ℕ) → i < f.encoded_size → byte_index f (byte_index f i) ≡ i
byte_index-involutive f i h =
    elim f.order as (λ o. byte_place f.encoded_size o (byte_place f.encoded_size o i) ≡ i) [
      | little_endian ↦ refl
      | big_endian ↦ omega arith
    ]

pub byte_index-lt : (f : FieldType) (i : ℕ) → i < f.encoded_size → byte_index f i < f.encoded_size
byte_index-lt f i h = elim f.order as (λ o. byte_place f.encoded_size o i < f.encoded_size) [
  | little_endian ↦ h
  | big_endian ↦ omega arith
]

byte_index-injective :
    (f : FieldType) (i j : ℕ)
    → i < f.encoded_size
    → j < f.encoded_size
    → byte_index f i ≡ byte_index f j
    → i ≡ j
byte_index-injective f i j hi hj e =
    sym (byte_index-involutive f i hi) ∙ ap (byte_index f) e ∙ byte_index-involutive f j hj

index-some : (xs : List ℕ) (i x : ℕ) → get_elem? xs i ≡ some x → index {E = FieldError} xs i ≡ ok x
index-some xs i x h = rw (h, index) refl

-- `|` puts a further digit in front of a number.
or_digit :
    (d : ℕ → ℕ) (n : ℕ)
    → n < 16
    → ((i : ℕ) → i < suc n → d i < 256)
    → bit_or (number d n) (shl128 (d n) (n * 8)) ≡ number d (suc n)
or_digit d n hn lt =
    let next : d n * 256 ^ n < 2 ^ 128 = omega (
      arith,
      number-lt d (suc n) lt,
      pow-le-pow_right {n = 256} (omega arith) {i = suc n} {j = 16} hn,
    ) in
    let shifted : shl128 (d n) (n * 8) ≡ d n * 2 ^ (n * 8) = mod-eq_of_lt (rw (shift_256 n) next) in
    let low : number d n < 2 ^ (n * 8) =
      rw (shift_256 n) (number-lt d n (λ i hi. lt i (omega arith))) in
    rw shifted (bit_or-shifted (n * 8) (number d n) (d n) low ∙ rw (shift_256 n) refl)

-- `& 0xff` after a shift is a digit.
and_digit : (v n : ℕ) → bit_and (v / 2 ^ (n * 8)) 255 % 256 ≡ digit v n
unfolding digit
and_digit v n = rw (shift_256 n, bit_and-ones 8 (v / 256 ^ n)) (omega arith)

module _ (f : FieldType) (fits : f.encoded_size ≤ 16) where
  -- The loop of `try_from_bytes` reads the digits of a number.
  pub load_loop_lem :
      (bytes : List ℕ) (d : ℕ → ℕ) (n : ℕ)
      → n ≤ f.encoded_size
      → ((i : ℕ) → i < n → get_elem? bytes (byte_index f i) ≡ some (d i))
      → ((i : ℕ) → i < n → d i < 256)
      → load_loop f bytes n ≡ ok (number d n)
  unfolding load_loop
  load_loop_lem bytes d zero hn h lt = refl
  load_loop_lem bytes d (suc n) hn h lt =
      rw
        (
          load_loop_lem bytes d n (omega arith) (λ i hi. h i (omega arith))
              (λ i hi. lt i (omega arith)),
          index-some bytes (byte_index f n) (d n) (h n (omega arith)),
        )
        (ap ok (or_digit d n (omega arith) lt))

  -- The bytes of a number, in the field's order.
  unfoldable pub wire_of : ℕ → List ℕ
  wire_of v = table f.encoded_size (λ k. digit v (byte_index f k))

  store_loop-lem :
      (v n : ℕ)
      → n ≤ f.encoded_size
      → (length (store_loop f v n) ≡ f.encoded_size)
        × ((i : ℕ) → i < n → get_elem? (store_loop f v n) (byte_index f i) ≡ some (digit v i))
  unfolding store_loop
  store_loop-lem v zero hn = (length-replicate f.encoded_size 0, λ i hi. absurd (omega arith))
  store_loop-lem v (suc n) hn =
      let (len, old) = store_loop-lem v n (omega arith) in
      let j = byte_index f n in
      let s = store_loop f v n in
      (
        length-set s j _ ∙ len,
        λ i hi. elim (Bool-cases (i == n)) [
          | inl e ↦
              let e' : i ≡ n = ground arith in
              rw (e', and_digit v n)
                (get_elem?-set s j (digit v n)
                  (omega (arith, len, byte_index-lt f n (omega arith))))
          | inr e ↦
              get_elem?-set_other s j (byte_index f i) _ (λ q.
                absurd (ground (arith, byte_index-injective f i n (omega arith) (omega arith) q)))
              ∙ old i (ground arith)
        ],
      )

  pub store_loop_lem : (v : ℕ) → store_loop f v f.encoded_size ≡ wire_of v
  unfolding wire_of
  store_loop_lem v =
      let (len, entries) = store_loop-lem v f.encoded_size (omega arith) in
      table_unique _ f.encoded_size (λ k. digit v (byte_index f k)) len
        (λ k hk.
          ap (λ (t : ℕ). get_elem? (store_loop f v f.encoded_size) t)
            (sym (byte_index-involutive f k hk))
          ∙ entries (byte_index f k) (byte_index-lt f k hk))

  pub load_loop-wire_of :
      (v : ℕ) → v < 256 ^ f.encoded_size → load_loop f (wire_of v) f.encoded_size ≡ ok v
  unfolding wire_of digit
  load_loop-wire_of v h =
      load_loop_lem (wire_of v) (digit v) f.encoded_size (omega arith)
        (λ i hi.
          get_elem?-table f.encoded_size (λ k. digit v (byte_index f k)) (byte_index f i)
            (byte_index-lt f i hi)
          ∙ ap (λ (t : ℕ). some (digit v t)) (byte_index-involutive f i hi))
        (λ i hi. omega arith)
      ∙ ap ok (number-digit v f.encoded_size ∙ mod-eq_of_lt h)

  -- Any bytes are those of the number that the loop reads.
  pub load_loop-inverse :
      (bytes : List ℕ)
      → length bytes ≡ f.encoded_size
      → All (λ b. b < 256) bytes
      → (v : ℕ) × (v < 256 ^ f.encoded_size)
        × (load_loop f bytes f.encoded_size ≡ ok v)
        × (wire_of v ≡ bytes)
  unfolding wire_of digit
  load_loop-inverse bytes len bs =
      let d : ℕ → ℕ = λ i. entry bytes (byte_index f i) in
      let lt : (i : ℕ) → d i < 256 = λ i. entry-lt bytes (byte_index f i) bs in
      (
        number d f.encoded_size,
        number-lt d f.encoded_size (λ i hi. lt i),
        load_loop_lem bytes d f.encoded_size (omega arith)
            (λ i hi.
              get_elem?-entry bytes (byte_index f i) (omega (arith, len, byte_index-lt f i hi)))
            (λ i hi. lt i),
        sym (
            table_unique bytes f.encoded_size _ len (λ k hk.
              get_elem?-entry bytes k (omega (arith, len))
              ∙ ap some (
                  ap (entry bytes) (sym (byte_index-involutive f k hk))
                  ∙ sym (
                      digit-number d f.encoded_size (byte_index f k) (λ i hi. lt i)
                        (byte_index-lt f k hk))))),
      )

  pub length-wire_of : (v : ℕ) → length (wire_of v) ≡ f.encoded_size
  unfolding wire_of
  length-wire_of v = length-table f.encoded_size (λ k. digit v (byte_index f k))
