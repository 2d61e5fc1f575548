-- ===== src/Poplar1/Wire.antt =====
-- The codecs of input shares, verification parameters and messages in src/vdaf/poplar1.rs.
use libprio_rs.Common.{ℕ, zero, suc, Bool, true, false, List}
use libprio_rs.Outcome.{Outcome, ok, err, ◌>>=◌}
use libprio_rs.Codec.{
  CodecError, unexpected_value, Decoder, Encoder, ReadBytesExt, encode_u8, decode_u8,
}
use libprio_rs.Codec.Items.{encode_u16_items, decode_u16_items}
use libprio_rs.Field.{FieldType, encode, decode}
use libprio_rs.Vdaf.{
  ShareDecodingParameter, leader_length, helper_seed, encode_seed, decode_seed, encode_share,
  decode_share,
}
use libprio_rs.Poplar1.{Idpf, Poplar1, Poplar1InputShare, Poplar1VerifyParam, usize_add, usize_mul}

-- `Leader((input_length + 1) * 2)` or `Helper`.
unfoldable pub next_parameter : Poplar1VerifyParam → Outcome CodecError ShareDecodingParameter
next_parameter param = elim (param.is_leader) [
  | true ↦ usize_add param.input_length 1 >>= λ n. usize_mul n 2 >>= λ m. ok (leader_length m)
  | false ↦ ok helper_seed
]

module _ (f : FieldType) {Key : Type 0} (idpf : Idpf Key) where
  unfoldable pub encode_share_of : Encoder (Poplar1InputShare Key)
  encode_share_of self bytes = do
    bytes₀ ← idpf.encode_key self.idpf bytes
    bytes₁ ← encode_seed self.sketch_start_seed bytes₀
    encode_share f self.sketch_next bytes₁

  unfoldable pub decode_share_of : ℕ → Poplar1VerifyParam → Decoder (Poplar1InputShare Key)
  decode_share_of l decoding_parameter c = do
    (key, c₀) ← idpf.decode_key c
    (start_seed, c₁) ← decode_seed l c₀
    parameter ← next_parameter decoding_parameter
    (next, c₂) ← decode_share f l parameter c₁
    ok (record { idpf = key; sketch_start_seed = start_seed; sketch_next = next }, c₂)

abbrev pub role_byte : Bool → ℕ
role_byte true = 1
role_byte false = 0

unfoldable pub encode_param : Encoder Poplar1VerifyParam
encode_param self bytes = do
  bytes' ← encode_seed self.rand_init bytes
  encode_u8 (role_byte self.is_leader) bytes'

-- `1 => true, 0 => false`, and an error for any other byte.
unfoldable pub role_of : ℕ → Outcome CodecError Bool
role_of zero = ok false
role_of (suc zero) = ok true
role_of (suc (suc n)) = err unexpected_value

unfoldable pub decode_param : ℕ → Poplar1 → Decoder Poplar1VerifyParam
decode_param l vdaf c = do
  (rand_init, c₀) ← decode_seed l c
  (byte, c₁) ← decode_u8 c₀
  is_leader ← role_of byte
  ok (record { rand_init = rand_init; input_length = vdaf.input_length; is_leader = is_leader }, c₁)

module _ (f : FieldType) where
  unfoldable pub encode_message : Encoder (List ℕ)
  encode_message self bytes = encode_u16_items (encode f) bytes self

  unfoldable pub decode_message : ReadBytesExt → Decoder (List ℕ)
  decode_message r c = decode_u16_items (decode f) r c
