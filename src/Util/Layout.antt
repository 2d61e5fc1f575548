-- ===== src/Util/Layout.antt =====
-- A proof's length and its parts.
use libprio_rs.Common.{
  ℕ, zero, suc, ◌+◌, ◌*◌, ◌^◌, ◌≤◌, ◌<◌, ◌≡◌, ◌≢◌, refl, sym, ap, ◌∙◌, List, [], ◌∷◌, ◌++◌, arith,
  leb, ◌==◌, lt→ltb, le→leb, leb→le, Bool-cases, ◌⊎◌, inl, inr, length, take, drop,
  take-append-drop, length-take, length-drop,
}
use libprio_rs.Outcome.{ok, err}
use libprio_rs.Util.{
  unpack_input_size_mismatch, next_power_from, next_power_of_two, proof_length, UnpackedProof,
  unpack_zeros, unpack_proof,
}
use native.Mathlib.Nat.{pow-suc}

-- The first power of two from k on that is n or more.
next_power_from_lem :
    (tries k n : ℕ)
    → 0 < k
    → n ≤ k * 2 ^ tries
    → (r j : ℕ) × (next_power_from (suc tries) k n ≡ ok r)
      × (r ≡ k * 2 ^ j)
      × (n ≤ r)
      × ((r ≡ k) ⊎ (r < 2 * n))
unfolding next_power_from
next_power_from_lem zero k n pos h =
    (k, 0, rw (le→leb n k (omega arith)) refl, omega arith, omega arith, inl refl)
next_power_from_lem (suc tries) k n pos h = elim (Bool-cases (leb n k)) [
  | inl here ↦ (k, 0, rw here refl, omega arith, leb→le n k here, inl refl)
  | inr later ↦
      let (r, j, e, power, enough, near) =
        next_power_from_lem tries (k * 2) n (omega arith)
          (omega (arith, h, ap (λ (t : ℕ). k * t) (pow-suc 2 tries))) in
      let below : r < 2 * n = elim near [ inl same ↦ ground arith | inr lt ↦ lt ] in
      (
        r,
        suc j,
        rw later e,
        omega (arith, power, ap (λ (t : ℕ). k * t) (pow-suc 2 j)),
        enough,
        inr below,
      )
]

-- `next_power_of_two n` is a power of two, n or more and below 2 * n, for 0 < n <= 2 ^ 63.
pub next_power_of_two_lem :
    (n : ℕ)
    → 0 < n
    → n ≤ 2 ^ 63
    → (r j : ℕ) × (next_power_of_two n ≡ ok r) × (r ≡ 2 ^ j) × (n ≤ r) × (r < 2 * n)
unfolding next_power_of_two
next_power_of_two_lem n pos h =
    let (r, j, e, power, enough, near) = next_power_from_lem 63 1 n (omega arith) (omega arith) in
    (r, j, e, omega arith, enough, elim near [ inl same ↦ omega arith | inr lt ↦ lt ])

three_front :
    (data_items points xs : List ℕ)
    → length xs ≡ 3
    → (f0 g0 h0 : ℕ) × (xs ≡ f0 ∷ g0 ∷ h0 ∷ [])
      × (unpack_zeros data_items xs points
          ≡ ok (record {
            data_items = data_items;
            f0 = f0;
            g0 = g0;
            h0 = h0;
            points_h_packed = points;
          }))
unfolding unpack_zeros
three_front data_items points [] h = absurd (omega arith)
three_front data_items points (a ∷ []) h = absurd (omega arith)
three_front data_items points (a ∷ b ∷ []) h = absurd (omega arith)
three_front data_items points (a ∷ b ∷ c ∷ []) h = (a, b, c, refl, refl)
three_front data_items points (a ∷ b ∷ c ∷ d ∷ rest) h = absurd (omega arith)

-- For a dimension below 2 ^ 62, `unpack_proof` refuses every proof but those of the length of
-- `proof_length`, and takes these apart: the data items, the three zero terms and the points stand
-- one behind the other, and the points are a power of two in number, above the dimension.
pub unpack_proof_lem :
    (proof : List ℕ) (dimension : ℕ)
    → dimension < 2 ^ 62
    → (n j : ℕ) × (proof_length dimension ≡ ok (dimension + 3 + n))
      × (n ≡ 2 ^ j)
      × (dimension < n)
      × (((length proof ≢ dimension + 3 + n)
            × (unpack_proof proof dimension ≡ err unpack_input_size_mismatch))
          ⊎ ((u : UnpackedProof) × (unpack_proof proof dimension ≡ ok u)
              × (proof ≡ u.data_items ++ (u.f0 ∷ u.g0 ∷ u.h0 ∷ u.points_h_packed))
              × (length u.data_items ≡ dimension)
              × (length u.points_h_packed ≡ n)))
unfolding proof_length unpack_proof
unpack_proof_lem proof dimension small =
    let (n, j, e, power, enough, near) =
      next_power_of_two_lem (dimension + 1) (omega arith) (omega arith) in
    let len : proof_length dimension ≡ ok (dimension + 3 + n) =
      rw
        (
          lt→ltb (dimension + 1) (2 ^ 64) (omega arith),
          e,
          lt→ltb (dimension + 3 + n) (2 ^ 64) (omega arith),
        )
        refl in
    (
      n,
      j,
      len,
      power,
      omega arith,
      elim (Bool-cases (length proof == dimension + 3 + n)) [
        | inr differ ↦ inl (λ q. absurd (ground arith), rw (len, differ) refl)
        | inl same ↦
            let total : length proof ≡ dimension + 3 + n = ground arith in
            let rest = drop dimension proof in
            let lrest = length-drop dimension proof in
            let (a, b, c, zeros, unpacked) =
              three_front (take dimension proof) (drop 3 rest) (take 3 rest)
                (omega (arith, length-take 3 rest)) in
            inr (
              record {
                data_items = take dimension proof;
                f0 = a;
                g0 = b;
                h0 = c;
                points_h_packed = drop 3 rest;
              },
              rw
                  (
                    len,
                    same,
                    le→leb dimension (length proof) (omega arith),
                    le→leb 3 (length rest) (omega arith),
                  )
                  unpacked,
              sym (
                  ap (λ (t : List ℕ). take dimension proof ++ t)
                    (ap (λ (t : List ℕ). t ++ drop 3 rest) (sym zeros) ∙ take-append-drop 3 rest)
                  ∙ take-append-drop dimension proof),
              omega (arith, length-take dimension proof),
              omega (arith, length-drop 3 rest),
            )
      ],
    )
