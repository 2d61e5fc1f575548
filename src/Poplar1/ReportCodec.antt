-- ===== src/Poplar1/ReportCodec.antt =====
-- The codecs of input shares and messages in src/vdaf/poplar1.rs.
use libprio_rs.Common.{
  ℕ, ◌+◌, ◌*◌, ◌^◌, ◌≤◌, ◌<◌, ◌≡◌, refl, ap, ◌∙◌, List, [], ◌∷◌, ◌++◌, arith, length, length-append,
  append_assoc, All, Bool, true, false, lt→ltb,
}
use libprio_rs.Common.Digits.{be_bytes, length-be_bytes}
use libprio_rs.Common.Words.{usize_word}
use libprio_rs.Outcome.{ok, err}
use libprio_rs.Codec.{bytes_left_over, cursor, ReadBytesExt, get_encoded, get_decoded}
use libprio_rs.Codec.Lawful.{IsLawful, get_encoded_lem, get_decoded_lem}
use libprio_rs.Codec.Vectors.{u16_items-IsLawful}
use libprio_rs.Field.{FieldType}
use libprio_rs.Field.Codec.{IsFieldType, element-IsLawful}
use libprio_rs.Vdaf.{
  Share, leader, helper, ShareDecodingParameter, leader_length, helper_seed, encode_seed,
  encode_share, decode_share,
}
use libprio_rs.Vdaf.ShareCodec.{encode_elements_lem, decode_elements_lem}
use libprio_rs.Poplar1.{Idpf, Poplar1, Poplar1InputShare, Poplar1VerifyParam}
use libprio_rs.Poplar1.KeyCodec.{
  read_seed, appended, length_three, IsParam, param_wire, encode_param-IsLawful, elements_wire,
  element-nonempty,
}
use libprio_rs.Poplar1.Wire.{
  role_byte, next_parameter, encode_share_of, decode_share_of, encode_param, decode_param,
  encode_message, decode_message,
}

module _ (f : FieldType) (ok_f : IsFieldType f) (l : ℕ) where
  open f use {fp}

  -- The second part of an aggregator's share, by its role: two elements for each bit and two more, or a
  -- seed.
  abbrev pub IsNext : Bool → ℕ → Share → Type 0
  IsNext true n (leader xs) = (length xs ≡ (n + 1) * 2) × All (λ x. x < fp.p) xs
  IsNext false n (helper seed) = length seed ≡ l
  IsNext true n (helper seed) = ⊥
  IsNext false n (leader xs) = ⊥

  abbrev pub next_wire : Share → List ℕ
  next_wire (leader xs) = elements_wire f ok_f xs
  next_wire (helper seed) = seed

  encode_next :
      (is_leader : Bool) (n : ℕ) (s : Share) (bytes : List ℕ)
      → IsNext is_leader n s
      → length bytes + length (next_wire s) < 2 ^ 64
      → encode_share f s bytes ≡ ok (bytes ++ next_wire s)
  unfolding encode_share encode_seed
  encode_next true n (leader xs) bytes (len, v) h = encode_elements_lem f ok_f xs bytes v h
  encode_next false n (helper seed) bytes v h = refl
  encode_next true n (helper seed) bytes v h = absurd v
  encode_next false n (leader xs) bytes v h = absurd v

  decode_next :
      (param : Poplar1VerifyParam) (is_leader : Bool) (s : Share) (p : ℕ) (rest : List ℕ)
      → param.is_leader ≡ is_leader
      → param.input_length < 2 ^ 62
      → IsNext is_leader param.input_length s
      → p + length (next_wire s) < 2 ^ 64
      → (parameter : ShareDecodingParameter) × (next_parameter param ≡ ok parameter)
        × (decode_share f l parameter (cursor p (next_wire s ++ rest))
            ≡ ok (s, cursor (p + length (next_wire s)) rest))
  unfolding decode_share next_parameter
  decode_next param true (leader xs) p rest role small (len, v) h = (
    leader_length (length xs),
    rw
        (
          role,
          lt→ltb (param.input_length + 1) usize_word (omega arith),
          lt→ltb ((param.input_length + 1) * 2) usize_word (omega arith),
          len,
        )
        refl,
    rw (decode_elements_lem f ok_f xs rest p v h) refl,
  )
  decode_next param false (helper seed) p rest role small v h =
      (helper_seed, rw role refl, rw (read_seed l p seed rest v) refl)
  decode_next param true (helper seed) p rest role small v h = absurd v
  decode_next param false (leader xs) p rest role small v h = absurd v

  -- A message of reduced elements, of at most 2 ^ 16 - 1 bytes.
  abbrev pub IsMessage : List ℕ → Type 0
  IsMessage msg = All (λ x. x < fp.p) msg × (length (elements_wire f ok_f msg) ≤ 0xffff)

  abbrev pub message_wire : List ℕ → List ℕ
  message_wire msg = be_bytes 2 (length (elements_wire f ok_f msg)) ++ elements_wire f ok_f msg

  encode_message-IsLawful :
      (r : ReadBytesExt) → IsLawful (encode_message f) (decode_message f r) IsMessage message_wire
  unfolding encode_message decode_message
  encode_message-IsLawful r =
      let vector = u16_items-IsLawful (element-IsLawful f ok_f) (element-nonempty f ok_f) r in
      record {
        encodes = λ msg bytes v h. vector.encodes msg bytes v h;
        decodes = λ msg p rest v h. vector.decodes msg p rest v h;
      }

  module _ {Key : Type 0} (idpf : Idpf Key) {IsKey : Key → Type 0} {key_wire : Key → List ℕ}
      (key_law : IsLawful idpf.encode_key idpf.decode_key IsKey key_wire) where
    -- The input share of the parameter's aggregator.
    abbrev pub IsShareFor : Poplar1VerifyParam → Poplar1InputShare Key → Type 0
    IsShareFor param share =
        IsKey share.idpf
        × (length share.sketch_start_seed ≡ l)
        × IsNext param.is_leader param.input_length share.sketch_next

    abbrev pub share_wire : Poplar1InputShare Key → List ℕ
    share_wire share =
        key_wire share.idpf ++ (share.sketch_start_seed ++ next_wire share.sketch_next)

    pub share-IsLawful :
        (param : Poplar1VerifyParam)
        → param.input_length < 2 ^ 62
        → IsLawful
            (encode_share_of f idpf)
            (decode_share_of f idpf l param)
            (IsShareFor param)
            share_wire
    unfolding encode_share_of decode_share_of encode_seed
    share-IsLawful param small = record {
      encodes = λ share bytes v h.
          let a = key_wire share.idpf in
          let b = share.sketch_start_seed in
          let c = next_wire share.sketch_next in
          let len = length_three a b c in
          rw
            (
              key_law.encodes share.idpf bytes (v.0) (omega (arith, len)),
              encode_next param.is_leader param.input_length share.sketch_next ((bytes ++ a) ++ b)
                  (v.2) (omega (arith, len, length-append bytes a, length-append (bytes ++ a) b)),
            )
            (ap ok (append_assoc (bytes ++ a) b c ∙ append_assoc bytes a (b ++ c)));
      decodes = λ share p rest v h.
          let a = key_wire share.idpf in
          let b = share.sketch_start_seed in
          let c = next_wire share.sketch_next in
          let len = length_three a b c in
          let (parameter, found, read) =
            decode_next param param.is_leader share.sketch_next (p + length a + length b) rest refl
              small (v.2) (omega (arith, len)) in
          rw
            (
              appended p a b c rest,
              key_law.decodes share.idpf p (b ++ (c ++ rest)) (v.0) (omega (arith, len)),
              read_seed l (p + length a) b (c ++ rest) (v.1),
              found,
              read,
            )
            (ap (λ (q : ℕ). ok (share, cursor q rest)) {x = p + length a + length b + length c}
              {y = p + length (share_wire share)} (omega (arith, len)));
    }

    -- With a lawful codec of keys: the encoding of a verification parameter, whose seed has l bytes and
    -- whose input length is that of Poplar1, l and the length below 2 ^ 62, decodes to it as a whole
    -- buffer. With that parameter the encoding of an input share of its aggregator, of less than 2 ^ 64
    -- bytes, decodes to the share: a leader's with two elements for each bit of the input and two
    -- more, or a helper's with a seed. A longer buffer is an error for the share. And a message of
    -- reduced elements, of at most 2 ^ 16 - 1 bytes, decodes to itself.
    pub report-round_trip :
        (r : ReadBytesExt) (vdaf : Poplar1) (param : Poplar1VerifyParam)
        (share : Poplar1InputShare Key) (msg : List ℕ) (x : ℕ) (rest : List ℕ)
        → vdaf.input_length < 2 ^ 62
        → l < 2 ^ 62
        → IsParam l vdaf param
        → IsShareFor param share
        → length (share_wire share) < 2 ^ 64
        → IsMessage msg
        → (get_encoded encode_param param ≡ ok (param_wire param))
          × (get_decoded (decode_param l vdaf) (param_wire param) ≡ ok param)
          × (get_encoded (encode_share_of f idpf) share ≡ ok (share_wire share))
          × (get_decoded (decode_share_of f idpf l param) (share_wire share) ≡ ok share)
          × (get_decoded (decode_share_of f idpf l param) (share_wire share ++ (x ∷ rest))
              ≡ err (bytes_left_over (length rest + 1)))
          × (get_encoded (encode_message f) msg ≡ ok (message_wire msg))
          × (get_decoded (decode_message f r) (message_wire msg) ≡ ok msg)
    report-round_trip r vdaf param share msg x rest small small_l is_param is_share fits is_msg =
        let role : List ℕ = role_byte param.is_leader ∷ [] in
        let short : length (param_wire param) < 2 ^ 64 =
          omega (arith, is_param.0, length-append param.rand_init role) in
        let pre = be_bytes 2 (length (elements_wire f ok_f msg)) in
        let brief : length (message_wire msg) < 2 ^ 64 = omega (
          arith,
          is_msg.1,
          length-append pre (elements_wire f ok_f msg),
          length-be_bytes 2 (length (elements_wire f ok_f msg)),
        ) in
        let law = share-IsLawful param (omega (arith, is_param.1)) in
        let (whole, longer) = get_decoded_lem law share rest is_share fits in
        (
          get_encoded_lem (encode_param-IsLawful l vdaf) param is_param short,
          (get_decoded_lem (encode_param-IsLawful l vdaf) param [] is_param short).0,
          get_encoded_lem law share is_share fits,
          whole,
          longer x,
          get_encoded_lem (encode_message-IsLawful r) msg is_msg brief,
          (get_decoded_lem (encode_message-IsLawful r) msg [] is_msg brief).0,
        )
