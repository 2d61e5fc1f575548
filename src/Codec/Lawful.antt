-- ===== src/Codec/Lawful.antt =====
-- What a pair of an encoder and a decoder promises, and what the traits' other methods make of it.
use libprio_rs.Common.{
  ℕ, ◌+◌, ◌^◌, ◌<◌, ◌≡◌, List, [], ◌∷◌, ◌++◌, length, length-append, append-nil, arith,
}
use libprio_rs.Outcome.{ok, err}
use libprio_rs.Codec.{bytes_left_over, cursor, Decoder, Encoder, get_decoded, get_encoded}

-- On the values that are valid, `encode` appends the bytes `wire a`, and `decode` reads these back
-- and stops behind them. Lengths and positions stay in a `usize`.
pub record IsLawful {ℓ} {A : Type ℓ} (encode : Encoder A) (decode : Decoder A) (Valid : A → Type 0)
    (wire : A → List ℕ) : Type ℓ where
  pub encodes :
      (a : A) (bytes : List ℕ)
      → Valid a
      → length bytes + length (wire a) < 2 ^ 64
      → encode a bytes ≡ ok (bytes ++ wire a)
  pub decodes :
      (a : A) (p : ℕ) (rest : List ℕ)
      → Valid a
      → p + length (wire a) < 2 ^ 64
      → decode (cursor p (wire a ++ rest)) ≡ ok (a, cursor (p + length (wire a)) rest)

module _ {ℓ} {A : Type ℓ} {encode : Encoder A} {decode : Decoder A} {Valid : A → Type 0}
    {wire : A → List ℕ} (law : IsLawful encode decode Valid wire) where
  pub get_encoded_lem :
      (a : A) → Valid a → length (wire a) < 2 ^ 64 → get_encoded encode a ≡ ok (wire a)
  unfolding get_encoded
  get_encoded_lem a v h = law.encodes a [] v (omega arith)

  -- A whole buffer decodes to the value; bytes behind the value are an error that counts them.
  pub get_decoded_lem :
      (a : A) (rest : List ℕ)
      → Valid a
      → length (wire a) < 2 ^ 64
      → (get_decoded decode (wire a) ≡ ok a)
        × ((x : ℕ)
            → get_decoded decode (wire a ++ (x ∷ rest)) ≡ err (bytes_left_over (length rest + 1)))
  unfolding get_decoded
  get_decoded_lem a rest v fits =
      let whole : decode (cursor 0 (wire a)) ≡ ok (a, cursor (0 + length (wire a)) []) =
        rw append-nil at (law.decodes a 0 [] v (omega arith)) in
      (
        rw whole (ground arith),
        λ x.
            rw (law.decodes a 0 (x ∷ rest) v (omega arith))
              (ground (arith, length-append (wire a) (x ∷ rest))),
      )
