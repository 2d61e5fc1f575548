-- ===== src/Prng/Chunks.antt =====
-- The chunks of the generator's buffer in src/prng.rs.
use Prim.Native.Nat.{bit_and}
use libprio_rs.Common.{
  ℕ, zero, suc, ◌+◌, ◌-◌, ◌*◌, ◌≤◌, ◌<◌, ◌≡◌, refl, sym, ap, ◌∙◌, List, [], ◌∷◌, lt→ltb, le→ltb,
  leb, arith, some, none, ltb, ltb→lt, le→leb, Bool-cases, ◌⊎◌, inl, inr, length, take, drop,
  length-take, length-drop, All, All-take, All-drop,
}
use libprio_rs.Outcome.{Outcome, ok, err, panicked, diverged}
use libprio_rs.Codec.{FieldError, modulus_overflow}
use libprio_rs.Fp.{montgomery}
use libprio_rs.Fp.Element.{montgomery_reduced}
use libprio_rs.Field.{FieldType, try_from_bytes, try_from_random}
use libprio_rs.Field.Bytes.{load_loop-inverse}
use libprio_rs.Field.Codec.{IsFieldType}
use libprio_rs.Prng.{accept, slice, found_or, seek}
use native.Mathlib.Nat.{mul-le-mul_right}

-- An element that is one, in front of others.
abbrev pub keep : Outcome FieldError ℕ → List ℕ → List ℕ
keep (ok x) xs = x ∷ xs
keep (err e) xs = xs
keep panicked xs = xs
keep diverged xs = xs

not_panicked {ℓ} : {E : Type ℓ} {xs : List ℕ} → ◌≡◌ {A = Outcome E (List ℕ)} panicked (ok xs) → ⊥
not_panicked e = cc

module _ (f : FieldType) (ok_f : IsFieldType f) where
  open f use {fp, encoded_size}

  -- A chunk of random bytes is a reduced element, or its integer overflows.
  pub try_from_random_lem :
      (chunk : List ℕ)
      → length chunk ≡ encoded_size
      → All (λ b. b < 256) chunk
      → ((x : ℕ) × (try_from_random f chunk ≡ ok x) × (x < fp.p))
        ⊎ (try_from_random f chunk ≡ err modulus_overflow)
  unfolding try_from_random try_from_bytes
  try_from_random_lem chunk len h =
      let (v, hv, e, back) = load_loop-inverse f ok_f.size_le chunk len h in
      let int = bit_and v fp.bit_mask in
      elim (Bool-cases (ltb int fp.p)) [
        | inl below ↦ inl (
          montgomery fp int,
          rw (le→leb encoded_size (length chunk) (omega arith), e, below) refl,
          (montgomery_reduced fp ok_f.parameters int (ltb→lt _ _ below)).reduced,
        )
        | inr above ↦ inr (rw (le→leb encoded_size (length chunk) (omega arith), e, above) refl)
      ]

  -- A buffer of `m` chunks of bytes.
  abbrev pub IsBuffer : ℕ → List ℕ → Type 0
  IsBuffer m buffer = (length buffer ≡ m * encoded_size) × All (λ b. b < 256) buffer

  chunk_inside : (m k : ℕ) → k < m → k * encoded_size + encoded_size ≤ m * encoded_size
  chunk_inside m k h = omega (arith, mul-le-mul_right {m = suc k} {n = m} encoded_size h)

  before_end : (m k : ℕ) → k * encoded_size < m * encoded_size → k < m
  before_end m k h = elim (Bool-cases (ltb k m)) [
    | inl below ↦ ltb→lt k m below
    | inr above ↦
        absurd (omega (arith, mul-le-mul_right {m = m} {n = k} encoded_size (ground arith)))
  ]

  -- One chunk inside the buffer, sliced.
  slice_lem {ℓ} :
      {E : Type ℓ} (buffer : List ℕ) (m k : ℕ)
      → IsBuffer m buffer
      → k < m
      → (chunk : List ℕ) × (slice {E = E} buffer (k * encoded_size) (suc k * encoded_size)
          ≡ ok chunk)
        × (length chunk ≡ encoded_size)
        × All (λ b. b < 256) chunk
  slice_lem buffer m k hb below =
      let i = k * encoded_size in
      let j = suc k * encoded_size in
      let inside = chunk_inside m k below in
      (
        take (j - i) (drop i buffer),
        rw (le→leb j (length buffer) (omega (arith, hb.0))) refl,
        omega (arith, length-take (j - i) (drop i buffer), length-drop i buffer, hb.0),
        All-take (λ b. b < 256) (j - i) (drop i buffer) (All-drop (λ b. b < 256) i buffer hb.1),
      )

  -- The elements of `d` chunks of the buffer from the k-th on, without those that are none.
  abbrev pub samples : List ℕ → (d k : ℕ) → List ℕ
  samples buffer zero k = []
  samples buffer (suc d) k =
      keep (try_from_random f (take encoded_size (drop (k * encoded_size) buffer)))
        (samples buffer d (suc k))

  chunk_lem {ℓ} :
      {E : Type ℓ} (buffer chunk : List ℕ) (k : ℕ)
      → slice {E = E} buffer (k * encoded_size) (suc k * encoded_size) ≡ ok chunk
      → take encoded_size (drop (k * encoded_size) buffer) ≡ chunk
  chunk_lem {E = E} buffer chunk k e =
      let size : suc k * encoded_size - k * encoded_size ≡ encoded_size = omega arith in
      elim (Bool-cases (leb (suc k * encoded_size) (length buffer))) [
        | inl inside ↦
            let e' : ◌≡◌ {A = Outcome E (List ℕ)}
                (ok
                  (take (suc k * encoded_size - k * encoded_size) (drop (k * encoded_size) buffer)))
                (ok chunk) =
              rw inside at e in
            ap (λ (t : ℕ). take t (drop (k * encoded_size) buffer)) (sym size) ∙ cc e'
        | inr outside ↦ absurd (not_panicked (rw outside at e))
      ]

  -- The first of the samples that are left, with the index behind its chunk.
  pub seek_lem {ℓ} :
      {E : Type ℓ} (buffer : List ℕ) (m n d k : ℕ)
      → IsBuffer m buffer
      → k + d ≡ m
      → d ≤ n
      → ((seek f {E = E} buffer n (k * encoded_size) ≡ ok none) × (samples buffer d k ≡ []))
        ⊎ ((x d' k' : ℕ) × (seek f {E = E} buffer n (k * encoded_size)
              ≡ ok (some (x, k' * encoded_size)))
            × (x < fp.p)
            × (k' + d' ≡ m)
            × (samples buffer d k ≡ x ∷ samples buffer d' k'))
  unfolding seek accept found_or
  seek_lem {E = E} buffer m zero zero k hb hk hn = inl (refl, refl)
  seek_lem {E = E} buffer m zero (suc d) k hb hk hn = absurd (omega arith)
  seek_lem {E = E} buffer m (suc n) zero k hb hk hn =
      let same : k ≡ m = omega arith in
      let stop =
        le→ltb (k * encoded_size) (length buffer)
          (omega (arith, hb.0, ap (λ (t : ℕ). t * encoded_size) same)) in
      inl (rw stop refl, refl)
  seek_lem {E = E} buffer m (suc n) (suc d) k hb hk hn =
      let below : k < m = omega arith in
      let more =
        lt→ltb (k * encoded_size) (length buffer)
          (omega (arith, chunk_inside m k below, hb.0, ok_f.size_pos)) in
      let j : k * encoded_size + encoded_size ≡ suc k * encoded_size = omega arith in
      let (chunk, sliced, len, bytes) = slice_lem {E = E} buffer m k hb below in
      let read = chunk_lem {E = E} buffer chunk k sliced in
      elim (try_from_random_lem chunk len bytes) [
        | inl (x, e, hx) ↦
            inr (x, d, suc k, rw (more, j, sliced, e) refl, hx, omega arith, rw (read, e) refl)
        | inr e ↦ elim (seek_lem {E = E} buffer m n d (suc k) hb (omega arith) (omega arith)) [
          | inl (none_left, empty) ↦ inl (rw (more, j, sliced, e) none_left, rw (read, e) empty)
          | inr (x, d', k', found, hx, hk', rest) ↦
              inr (x, d', k', rw (more, j, sliced, e) found, hx, hk', rw (read, e) rest)
        ]
      ]
