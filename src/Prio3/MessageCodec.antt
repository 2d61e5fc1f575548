-- ===== src/Prio3/MessageCodec.antt =====
-- The codec of the messages and the stored steps in src/vdaf/prio3.rs.
use libprio_rs.Common.{
  ℕ, ◌+◌, ◌^◌, ◌<◌, ◌≡◌, refl, sym, ap, ◌∙◌, List, [], ◌++◌, arith, length, length-append,
  append_assoc, append-nil, Option, some, none, true, Bool, ltb, lt→ltb, ◌==◌,
}
use libprio_rs.Outcome.{ok}
use libprio_rs.Codec.{cursor, Decoder, Encoder}
use libprio_rs.Codec.Ints.{read_exact-append}
use libprio_rs.Codec.EncodeItems.{wires}
use libprio_rs.Field.{FieldType}
use libprio_rs.Field.Codec.{IsFieldType, wire}
use libprio_rs.Field.Elementwise.{IsVector}
use native.Mathlib.Nat.{mul-le-mul_left}
use libprio_rs.Vdaf.{Share, leader, helper, encode_share, decode_share, encode_seed, decode_seed}
use libprio_rs.Vdaf.ShareCodec.{length-wires, encode_elements_lem, decode_elements_lem}
use libprio_rs.Prio3.{JointRandParam, Prio3InputShare, Prio3VerifyParam}
use libprio_rs.Prio3.Messages.{
  share_parameter, encode_input_share, decode_input_share, encode_param_if, decode_param_if,
  encode_seed_if, decode_seed_if, unambiguous,
}

-- `w` is the encoding of `v`: it is appended to buffers, and read back in front of other bytes.
pub record IsEncoding {ℓ} {A : Type ℓ} (encoder : Encoder A) (decoder : Decoder A) (v : A)
    (limit : ℕ) (w : List ℕ) : Type ℓ where
  pub encodes : (bytes : List ℕ) → length bytes < limit → encoder v bytes ≡ ok (bytes ++ w)
  pub decodes :
      (p : ℕ) (rest : List ℕ)
      → p < limit
      → decoder (cursor p (w ++ rest)) ≡ ok (v, cursor (p + length w) rest)

module _ (f : FieldType) (ok_f : IsFieldType f) (l : ℕ) (small_l : l < 2 ^ 32) where
  open f use {fp, encoded_size}

  -- The share of the aggregator `id`, of `n` elements or of a seed.
  abbrev pub IsShareOf : (id n : ℕ) → Share → Type 0
  IsShareOf id n (leader xs) = (id ≡ 0) × IsVector f n xs
  IsShareOf id n (helper seed) = (0 < id) × (length seed ≡ l)

  abbrev pub IsParamOf : (joint_rand_len : ℕ) → Option JointRandParam → Type 0
  IsParamOf n none = n ≡ 0
  IsParamOf n (some param) = (0 < n) × (length param.blind ≡ l) × (length param.seed_hint ≡ l)

  abbrev pub IsSeedOf : (joint_rand_len : ℕ) → Option (List ℕ) → Type 0
  IsSeedOf n none = n ≡ 0
  IsSeedOf n (some seed) = (0 < n) × (length seed ≡ l)

  pub wires_short : (xs : List ℕ) → length xs < 2 ^ 32 → length (wires (wire f ok_f) xs) < 2 ^ 37
  wires_short xs h = omega (
    arith,
    length-wires f ok_f xs,
    mul-le-mul_left {m = encoded_size} {n = 16} (length xs) ok_f.size_le,
  )

  not_zero : (id : ℕ) → 0 < id → (id == 0) ≡ Bool.false
  not_zero id h = ground arith

  read_seed :
      (seed : List ℕ) (p : ℕ) (rest : List ℕ)
      → length seed ≡ l
      → decode_seed l (cursor p (seed ++ rest)) ≡ ok (seed, cursor (p + length seed) rest)
  unfolding decode_seed
  read_seed seed p rest len = rw (← len) (read_exact-append seed p rest)

  pub share_lem :
      (id n : ℕ) (s : Share)
      → n < 2 ^ 32
      → IsShareOf id n s
      → (w : List ℕ) × (length w < 2 ^ 37)
        × IsEncoding (encode_share f) (decode_share f l (share_parameter id n)) s (2 ^ 63) w
  unfolding encode_share decode_share encode_seed
  share_lem id n (leader xs) small (i0, (len, h)) =
      let w = wires (wire f ok_f) xs in
      let short = wires_short xs (omega arith) in
      (
        w,
        short,
        record {
          encodes = λ bytes hb. encode_elements_lem f ok_f xs bytes h (omega arith);
          decodes = λ p rest hp.
              rw (i0, ← len, decode_elements_lem f ok_f xs rest p h (omega arith)) refl;
        },
      )
  share_lem id n (helper seed) small (i0, len) = (
    seed,
    omega arith,
    record {
      encodes = λ bytes hb. refl;
      decodes = λ p rest hp. rw (not_zero id i0, read_seed seed p rest len) refl;
    },
  )

  param_lem :
      (n : ℕ) (param : Option JointRandParam)
      → IsParamOf n param
      → (w : List ℕ) × (length w < 2 ^ 34)
        × IsEncoding encode_param_if (decode_param_if l (ltb 0 n)) param (2 ^ 63) w
  unfolding encode_seed
  param_lem n none n0 = (
    [],
    omega arith,
    record {
      encodes = λ bytes hb. ap ok (sym (append-nil bytes));
      decodes = λ p rest hp.
          rw n0 (ap (λ (q : ℕ). ok (none, cursor q rest)) {x = p} {y = p + 0} (omega arith));
    },
  )
  param_lem n (some param) (n0, hb, hs) = (
    param.blind ++ param.seed_hint,
    omega (arith, length-append param.blind param.seed_hint),
    record {
      encodes = λ bytes hb. ap ok (append_assoc bytes param.blind param.seed_hint);
      decodes = λ p rest hp.
          rw
            (
              append_assoc param.blind param.seed_hint rest,
              lt→ltb 0 n n0,
              read_seed param.blind p (param.seed_hint ++ rest) hb,
              read_seed param.seed_hint (p + length param.blind) rest hs,
            )
            (ap (λ (q : ℕ). ok (some param, cursor q rest))
              {x = p + length param.blind + length param.seed_hint}
              {y = p + length (param.blind ++ param.seed_hint)}
              (omega (arith, length-append param.blind param.seed_hint)));
    },
  )

  pub seed_lem :
      (n : ℕ) (seed : Option (List ℕ))
      → IsSeedOf n seed
      → (w : List ℕ) × (length w < 2 ^ 34)
        × IsEncoding encode_seed_if (decode_seed_if l (ltb 0 n)) seed (2 ^ 63) w
  unfolding encode_seed
  seed_lem n none n0 = (
    [],
    omega arith,
    record {
      encodes = λ bytes hb. ap ok (sym (append-nil bytes));
      decodes = λ p rest hp.
          rw n0 (ap (λ (q : ℕ). ok (none, cursor q rest)) {x = p} {y = p + 0} (omega arith));
    },
  )
  seed_lem n (some seed) (n0, hs) = (
    seed,
    omega arith,
    record {
      encodes = λ bytes hb. refl;
      decodes = λ p rest hp. rw (lt→ltb 0 n n0, read_seed seed p rest hs) refl;
    },
  )

  same_kind :
      (id n m : ℕ) (s t : Share) → IsShareOf id n s → IsShareOf id m t → unambiguous s t ≡ true
  same_kind id n m (leader xs) (leader ys) h k = refl
  same_kind id n m (leader xs) (helper ys) h k = absurd (omega arith)
  same_kind id n m (helper xs) (leader ys) h k = absurd (omega arith)
  same_kind id n m (helper xs) (helper ys) h k = refl

  module _ (param : Prio3VerifyParam) (small_input : param.input_len < 2 ^ 32)
      (small_proof : param.proof_len < 2 ^ 32) where
    -- An input share that the parameter's aggregator is sent, both of its shares a leader's or both a
    -- helper's, encodes without a panic, by appending bytes, and these decode to it with that
    -- parameter, in front of other bytes.
    pub input_share-IsEncoding :
        (msg : Prio3InputShare)
        → IsShareOf param.aggregator_id param.input_len msg.input_share
        → IsShareOf param.aggregator_id param.proof_len msg.proof_share
        → IsParamOf param.joint_rand_len msg.joint_rand_param
        → (w : List ℕ) × IsEncoding
            (encode_input_share f)
            (decode_input_share f l param)
            msg
            (2 ^ 62)
            w
    unfolding encode_input_share decode_input_share
    input_share-IsEncoding msg hi hz hj =
        let (a, la, ca) =
          share_lem param.aggregator_id param.input_len msg.input_share small_input hi in
        let (b, lb, cb) =
          share_lem param.aggregator_id param.proof_len msg.proof_share small_proof hz in
        let (c, lc, cj) = param_lem param.joint_rand_len msg.joint_rand_param hj in
        (
          a ++ (b ++ c),
          record {
            encodes = λ bytes hb.
                rw
                  (
                    same_kind param.aggregator_id param.input_len param.proof_len msg.input_share
                        msg.proof_share hi hz,
                    ca.encodes bytes (omega arith),
                    cb.encodes (bytes ++ a) (omega (arith, length-append bytes a)),
                    cj.encodes ((bytes ++ a) ++ b)
                        (omega (arith, length-append bytes a, length-append (bytes ++ a) b)),
                  )
                  (ap ok (append_assoc (bytes ++ a) b c ∙ append_assoc bytes a (b ++ c)));
            decodes = λ p rest hp.
                rw
                  (
                    append_assoc a (b ++ c) rest,
                    append_assoc b c rest,
                    ca.decodes p (b ++ (c ++ rest)) (omega arith),
                    cb.decodes (p + length a) (c ++ rest) (omega arith),
                    cj.decodes (p + length a + length b) rest (omega arith),
                  )
                  (ap (λ (q : ℕ). ok (msg, cursor q rest)) {x = p + length a + length b + length c}
                    {y = p + length (a ++ (b ++ c))}
                    (omega (arith, length-append a (b ++ c), length-append b c)));
          },
        )
