-- ===== src/Poplar1/ToyContract.antt =====
-- `ToyIdpf` of src/vdaf/poplar1.rs fills the contract that Poplar1 takes.
use libprio_rs.Common.{ℕ, ◌≡◌, refl, sym, ◌∙◌, List, leb, leb→le, Bool-cases, inl, inr, false}
use libprio_rs.Outcome.{Outcome, ok, err}
use libprio_rs.Codec.{ReadBytesExt}
use libprio_rs.Field.{FieldType}
use libprio_rs.Field.Codec.{IsFieldType}
use libprio_rs.Field.Elementwise.{IsVector}
use libprio_rs.Vdaf.{VdafError, uncategorized, input_too_long}
use libprio_rs.Poplar1.{IdpfInput}
use libprio_rs.Poplar1.Points.{IsIdpf}
use libprio_rs.Poplar1.Toy.{max_input_len, gen, toy}
use libprio_rs.Poplar1.ToyPoints.{gen_points}

module _ (f : FieldType) (ok_f : IsFieldType f)
    (random0 random1 : ℕ → ℕ → Outcome VdafError (List ℕ)) (draw0 draw1 : ℕ → ℕ → List ℕ)
    (drawn0 : (n k : ℕ) → random0 n k ≡ ok (draw0 n k))
    (drawn1 : (n k : ℕ) → random1 n k ≡ ok (draw1 n k))
    (vector0 : (n k : ℕ) → IsVector f n (draw0 n k))
    (vector1 : (n k : ℕ) → IsVector f n (draw1 n k)) where
  too_long :
      (input : IdpfInput) (values : List (ℕ × ℕ))
      → leb input.level (max_input_len f) ≡ false
      → gen f random0 random1 input values
        ≡ err (uncategorized (input_too_long input.level (max_input_len f)))
  unfolding gen
  too_long input values h = rw h refl

  pub toy-IsIdpf : (r : ReadBytesExt) → IsIdpf f (toy f random0 random1 r)
  toy-IsIdpf r = record {
    shares = λ input values a b hi len hv made node hn le.
        elim (Bool-cases (leb input.level (max_input_len f))) [
          | inl short ↦
              let (a', b', made', shared) =
                gen_points f ok_f random0 random1 draw0 draw1 drawn0 drawn1 vector0 vector1 r input
                  values hi (leb→le _ _ short) len hv in
              let same : ok (a', b') ≡ ok (a, b) = sym made' ∙ made in
              let ea : a' ≡ a = cc same in
              let eb : b' ≡ b = cc same in rw (← ea, ← eb) (shared node hn le)
          | inr long ↦ let e = too_long input values long in cc
        ];
  }
