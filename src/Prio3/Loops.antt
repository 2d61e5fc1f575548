-- ===== src/Prio3/Loops.antt =====
-- The loops of `shard_with_rand_source` in src/vdaf/prio3.rs.
use libprio_rs.Common.{
  ℕ, zero, suc, ◌+◌, ◌%◌, ◌<◌, ◌≡◌, refl, ap, List, [], ◌∷◌, arith, length, All,
}
use libprio_rs.Common.Xor.{xor_each}
use libprio_rs.Outcome.{ok, >>=-eq-ok}
use libprio_rs.Field.{FieldType, sub_each}
use libprio_rs.Field.Codec.{IsFieldType}
use libprio_rs.Field.Elementwise.{IsVector, sub_each-IsVector}
use libprio_rs.Field.Sums.{add_all, add_all-sub_each}
use libprio_rs.Prg.{Prg, RandSource, xor_accumulate}
use libprio_rs.Vdaf.{VdafError}
use libprio_rs.Prio3.{HelperShare, info, expand}
use libprio_rs.Prio3.Shard.{
  helper_from_rand_source, with_hint, derive_hint, share_input, share_proof,
}
use libprio_rs.Prio3.Hints.{xor_all, IsSeed, derive_hint-IsSeed, expand-IsVector}
use Prim.Native.Nat.{min}

module _ (f : FieldType) (ok_f : IsFieldType f) {State Stream : Type 0} (prg : Prg State Stream)
    (l fuel : ℕ) where
  -- The input shares and the hints of the helpers, whose numbers go up from `id`.
  abbrev pub IsHelped :
      (input_len id : ℕ) → List HelperShare → List (List ℕ) → List (List ℕ) → Type 0
  IsHelped input_len id (s ∷ shares) (xs ∷ inputs) (h ∷ hints) =
      (expand f prg fuel {E = VdafError} s.input_share (info id) input_len ≡ ok xs)
      × (s.joint_rand_param.seed_hint ≡ h)
      × (derive_hint f prg l s.joint_rand_param.blind id xs ≡ h)
      × IsHelped input_len (suc id) shares inputs hints
  IsHelped input_len id [] [] [] = Unit {0}
  IsHelped input_len id _ _ _ = ⊥

  pub record IsInputShared (n id count : ℕ) (whole joint left joint' : List ℕ)
      (shares : List HelperShare) : Type 0 where
    pub inputs : List (List ℕ)
    pub hints : List (List ℕ)
    pub helped : IsHelped n id shares inputs hints
    pub left_whole : IsVector f n left
    pub inputs_whole : All (IsVector f n) inputs
    pub hints_whole : All (IsSeed l) hints
    pub input_back : add_all f left inputs ≡ whole
    pub joint_back : joint' ≡ xor_all joint hints
    pub inputs_count : length inputs ≡ count
    pub shares_count : length shares ≡ count

  -- What a round draws, all of the shared vector's length.
  drawn-IsVector :
      (n : ℕ) (seed information whole ys : List ℕ)
      → IsVector f n whole
      → expand f prg fuel {E = VdafError} seed information (min (length whole) n) ≡ ok ys
      → (expand f prg fuel {E = VdafError} seed information n ≡ ok ys) × IsVector f n ys
  drawn-IsVector n seed information whole ys hw taken =
      let all : min (length whole) n ≡ n = omega (arith, hw.0) in
      let taken' : expand f prg fuel {E = VdafError} seed information n ≡ ok ys = rw all at taken in
      (taken', expand-IsVector f ok_f prg l fuel seed information n ys taken')

  one_more_input :
      (n id count : ℕ) (whole joint left left' joint' joint'' : List ℕ) (s : HelperShare)
      (shares shares' : List HelperShare) (ys : List ℕ)
      → (let hint = derive_hint f prg l s.joint_rand_param.blind id ys in
          IsVector f n whole
          → (expand f prg fuel {E = VdafError} s.input_share (info id) n ≡ ok ys) × IsVector f n ys
          → IsInputShared n
              (suc id)
              count
              (sub_each f whole ys)
              (xor_each joint hint)
              left'
              joint''
              shares'
          → left' ≡ left
          → joint'' ≡ joint'
          → with_hint s hint ∷ shares' ≡ shares
          → IsInputShared n id (suc count) whole joint left joint' shares)
  one_more_input n id count whole joint left left' joint' joint'' s shares shares' ys hw (taken, hy)
        rest e₃ e₄ e₅ =
      let hint = derive_hint f prg l s.joint_rand_param.blind id ys in
      rw (← e₃, ← e₄, ← e₅)
        (record {
          inputs = ys ∷ rest.inputs;
          hints = hint ∷ rest.hints;
          helped = (taken, refl, refl, rest.helped);
          left_whole = rest.left_whole;
          inputs_whole = (hy, rest.inputs_whole);
          hints_whole = (
            derive_hint-IsSeed f ok_f prg l fuel s.joint_rand_param.blind id ys,
            rest.hints_whole,
          );
          input_back =
              add_all-sub_each f ok_f.p_lt_word n left' whole ys rest.inputs rest.left_whole hw hy
                rest.inputs_whole rest.input_back;
          joint_back = rest.joint_back;
          inputs_count = ap suc rest.inputs_count;
          shares_count = ap suc rest.shares_count;
        })

  pub share_input_lem {ℓ} :
      {E : Type ℓ} (rand_source : RandSource E) (n k id count : ℕ)
      (whole joint left joint' : List ℕ) (shares : List HelperShare)
      → IsVector f n whole
      → share_input f prg l fuel rand_source n k id count whole joint ≡ ok (left, joint', shares)
      → IsInputShared n id count whole joint left joint' shares
  unfolding share_input xor_accumulate
  share_input_lem rand_source n k id zero whole joint left joint' shares hw e =
      let e₁ : whole ≡ left = cc e in
      let e₂ : joint ≡ joint' = cc e in
      let e₃ : [] ≡ shares = cc e in
      rw (← e₁, ← e₂, ← e₃)
        (record {
          inputs = [];
          hints = [];
          helped = tt;
          left_whole = hw;
          inputs_whole = tt;
          hints_whole = tt;
          input_back = refl;
          joint_back = refl;
          inputs_count = refl;
          shares_count = refl;
        })
  share_input_lem rand_source n k id (suc count) whole joint left joint' shares hw e =
      let (s, drawn, e₁) = >>=-eq-ok (helper_from_rand_source l rand_source k) _ e in
      let (ys, taken, e₂) =
        >>=-eq-ok (expand f prg fuel s.input_share (info id) (min (length whole) n)) _ e₁ in
      let hint = derive_hint f prg l s.joint_rand_param.blind id ys in
      let ((left', joint'', shares'), looped, last) =
        >>=-eq-ok
          (share_input f prg l fuel rand_source n (k + 3) (suc id) count (sub_each f whole ys)
            (xor_each joint hint))
          _ e₂ in
      let hy = drawn-IsVector n s.input_share (info id) whole ys hw taken in
      let rest =
        share_input_lem rand_source n (k + 3) (suc id) count (sub_each f whole ys)
          (xor_each joint hint) left' joint'' shares'
          (sub_each-IsVector f ok_f.p_lt_word n whole ys hw hy.1) looped in
      one_more_input n id count whole joint left left' joint' joint'' s shares shares' ys hw hy rest
        (cc last) (cc last) (cc last)

  -- The proof shares of the helpers, and their hints as they are sent.
  abbrev pub IsProved :
      (proof_len id : ℕ) (joint : List ℕ)
      → (before after : List HelperShare) → List (List ℕ)
      → Type 0
  IsProved proof_len id joint (s ∷ before) (s' ∷ after) (zs ∷ proofs) =
      (expand f prg fuel {E = VdafError} s.proof_share (info id) proof_len ≡ ok zs)
      × (s' ≡ with_hint s (xor_each s.joint_rand_param.seed_hint joint))
      × IsProved proof_len (suc id) joint before after proofs
  IsProved proof_len id joint [] [] [] = Unit {0}
  IsProved proof_len id joint _ _ _ = ⊥

  pub record IsProofShared (n id : ℕ) (joint whole left : List ℕ) (before after : List HelperShare)
      : Type 0 where
    pub proofs : List (List ℕ)
    pub proved : IsProved n id joint before after proofs
    pub left_whole : IsVector f n left
    pub proofs_whole : All (IsVector f n) proofs
    pub proof_back : add_all f left proofs ≡ whole

  one_more_proof :
      (n id : ℕ) (joint whole left left' : List ℕ) (s : HelperShare)
      (before after after' : List HelperShare) (zs : List ℕ)
      → IsVector f n whole
      → (expand f prg fuel {E = VdafError} s.proof_share (info id) n ≡ ok zs) × IsVector f n zs
      → IsProofShared n (suc id) joint (sub_each f whole zs) left' before after'
      → left' ≡ left
      → with_hint s (xor_each s.joint_rand_param.seed_hint joint) ∷ after' ≡ after
      → IsProofShared n id joint whole left (s ∷ before) after
  one_more_proof n id joint whole left left' s before after after' zs hw (taken, hz) rest e₂ e₃ =
      rw (← e₂, ← e₃)
        (record {
          proofs = zs ∷ rest.proofs;
          proved = (taken, refl, rest.proved);
          left_whole = rest.left_whole;
          proofs_whole = (hz, rest.proofs_whole);
          proof_back =
              add_all-sub_each f ok_f.p_lt_word n left' whole zs rest.proofs rest.left_whole hw hz
                rest.proofs_whole rest.proof_back;
        })

  pub share_proof_lem :
      (n j : ℕ) (joint : List ℕ) (before : List HelperShare) (whole left : List ℕ)
      (after : List HelperShare)
      → IsVector f n whole
      → j + length before < 256
      → share_proof f prg l fuel n j joint before whole ≡ ok (left, after)
      → IsProofShared n (j + 1) joint whole left before after
  unfolding share_proof xor_accumulate
  share_proof_lem n j joint [] whole left after hw fits e =
      let e₁ : whole ≡ left = cc e in
      let e₂ : [] ≡ after = cc e in
      rw (← e₁, ← e₂)
        (record { proofs = []; proved = tt; left_whole = hw; proofs_whole = tt; proof_back = refl })
  share_proof_lem n j joint (s ∷ before) whole left after hw fits e =
      let number : j % 256 + 1 ≡ j + 1 = omega arith in
      let next : suc j + 1 ≡ suc (j + 1) = omega arith in
      let (zs, taken, e₁) =
        >>=-eq-ok (expand f prg fuel s.proof_share (info (j % 256 + 1)) (min (length whole) n)) _
          e in
      let ((left', after'), looped, last) =
        >>=-eq-ok (share_proof f prg l fuel n (suc j) joint before (sub_each f whole zs)) _ e₁ in
      let hz = drawn-IsVector n s.proof_share (info (j + 1)) whole zs hw (rw number at taken) in
      let rest : IsProofShared n (suc (j + 1)) joint (sub_each f whole zs) left' before after' =
        rw (← next) (
          share_proof_lem n (suc j) joint before (sub_each f whole zs) left' after'
            (sub_each-IsVector f ok_f.p_lt_word n whole zs hw hz.1) (omega arith) looped) in
      one_more_proof n (j + 1) joint whole left left' s before after after' zs hw hz rest (cc last)
        (cc last)
