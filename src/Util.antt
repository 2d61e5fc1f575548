-- ===== src/Util.antt =====
-- src/util.rs: the layout of a proof, and two shares added.
pub mod Layout
pub mod Shares
use libprio_rs.Common.{
  ℕ, zero, suc, ◌+◌, ◌*◌, ◌%◌, ◌^◌, Bool, true, false, List, [], ◌∷◌, Option, some, none, ltb, leb,
  ◌==◌, if◌then◌else◌, length, take, drop, replicate,
}
use libprio_rs.Common.Words.{usize_word}
use libprio_rs.Outcome.{Outcome, ok, err, panicked, diverged, ◌>>=◌, ◌>>◌, assert, guard}
use libprio_rs.Codec.{FieldError}
use libprio_rs.Fp.{add}
use libprio_rs.Field.{FieldType}

pub data SerializeError : Type 0 where
  unpack_input_size_mismatch : SerializeError
  field : FieldError → SerializeError

-- `usize::next_power_of_two`: powers of two are tried from `k` on, and the method panics where
-- none of them is a `usize`.
unfoldable pub next_power_from : ℕ → ℕ → ℕ → Outcome SerializeError ℕ
next_power_from zero k n = panicked
next_power_from (suc tries) k n =
    let rest = next_power_from tries (k * 2) n in if leb n k then ok k else rest

unfoldable pub next_power_of_two : ℕ → Outcome SerializeError ℕ
next_power_of_two = next_power_from 64 1

-- The additions of a `usize` panic where they overflow.
unfoldable pub proof_length : ℕ → Outcome SerializeError ℕ
proof_length dimension = do
  assert (ltb (dimension + 1) usize_word)
  n ← next_power_of_two (dimension + 1)
  assert (ltb (dimension + 3 + n) usize_word)
  ok (dimension + 3 + n)

pub record UnpackedProof : Type 0 where
  pub data_items : List ℕ
  pub f0 : ℕ
  pub g0 : ℕ
  pub h0 : ℕ
  pub points_h_packed : List ℕ

-- `xs.split_at(mid)`, which panics where `mid` is past the end.
abbrev pub split_at : List ℕ → ℕ → Outcome SerializeError (List ℕ × List ℕ)
split_at xs mid = if leb mid (length xs) then ok (take mid xs, drop mid xs) else panicked

-- `if let ([f0, g0, h0], points_h_packed) = ..`
unfoldable pub unpack_zeros : List ℕ → List ℕ → List ℕ → Outcome SerializeError UnpackedProof
unpack_zeros data_items (f0 ∷ g0 ∷ h0 ∷ []) points =
    ok (record { data_items = data_items; f0 = f0; g0 = g0; h0 = h0; points_h_packed = points })
unpack_zeros data_items [] points = err unpack_input_size_mismatch
unpack_zeros data_items (a ∷ []) points = err unpack_input_size_mismatch
unpack_zeros data_items (a ∷ b ∷ []) points = err unpack_input_size_mismatch
unpack_zeros data_items (a ∷ b ∷ c ∷ d ∷ rest) points = err unpack_input_size_mismatch

-- `unpack_proof`, and `unpack_proof_mut`, which differs by the references' mutability.
unfoldable pub unpack_proof : List ℕ → ℕ → Outcome SerializeError UnpackedProof
unpack_proof proof dimension = do
  expected ← proof_length dimension
  guard (length proof == expected) unpack_input_size_mismatch
  (data_items, rest) ← split_at proof dimension
  (zeros, points) ← split_at rest 3
  unpack_zeros data_items zeros points

module _ (f : FieldType) where
  -- `*r = *s1 + *s2` at each place of the three slices.
  unfoldable pub sum_into : List ℕ → List ℕ → List ℕ → List ℕ
  sum_into (r ∷ rs) (s1 ∷ ss1) (s2 ∷ ss2) = add f.fp s1 s2 ∷ sum_into rs ss1 ss2
  sum_into [] ss1 ss2 = []
  sum_into (r ∷ rs) [] ss2 = r ∷ rs
  sum_into (r ∷ rs) (s1 ∷ ss1) [] = r ∷ rs

  unfoldable pub reconstruct_shares : List ℕ → List ℕ → Option (List ℕ)
  reconstruct_shares share1 share2 =
      if length share1 == length share2
      then some (sum_into (replicate (length share1) 0) share1 share2)
      else none
