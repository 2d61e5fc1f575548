-- ===== src/Tests/Reports.antt =====
-- The codecs of src/vdaf/poplar1.rs on concrete inputs.
use libprio_rs.Common.{
  ℕ, ◌≤◌, ◌≡◌, refl, arith, List, [], ◌∷◌, ◌++◌, false, length, length-append, replicate,
}
use libprio_rs.Common.Digits.{from_be, be_bytes, length-be_bytes}
use libprio_rs.Outcome.{ok, err}
use libprio_rs.Codec.{cursor, get_encoded, get_decoded, bytes_left_over, decode_u24, decode_u64}
use libprio_rs.Codec.Items.{decode_u24_items, decode_items, decode_loop, is_too_big, move_on}
use libprio_rs.Field.{field32}
use libprio_rs.Field.Codec.{field32-IsFieldType}
use libprio_rs.Vdaf.{helper}
use libprio_rs.Vdaf.ShareCodec.{length-wires}
use libprio_rs.Poplar1.{Poplar1, Poplar1InputShare, Poplar1VerifyParam}
use libprio_rs.Poplar1.Input.{cmp, insert, from_iter, decode_input, encode_inputs, decode_inputs}
use libprio_rs.Poplar1.KeyCodec.{length_three, elements_wire, table_wire, toy_wire, toy-IsLawful}
use libprio_rs.Poplar1.Ordered.{IsOrdered}
use libprio_rs.Poplar1.ReportCodec.{share_wire, message_wire, report-round_trip}
use libprio_rs.Poplar1.SetCodec.{inputs_wire, inputs-round_trip}
use libprio_rs.Poplar1.Toy.{ToyIdpf, toy}
use libprio_rs.Poplar1.Wire.{
  encode_param, decode_param, encode_share_of, decode_share_of, encode_message, decode_message,
}
use libprio_rs.Tests.Poplar1.{random, second_key, node, nodes, nodes-IsOrdered, fives-lt}
use libprio_rs.Tests.Wire.{reader}

-- A buffer with two inputs that are not in their order.
abbrev swapped : List ℕ
swapped =
    0 ∷ 0 ∷ 32 ∷ 0 ∷ 0 ∷ 0 ∷ 0 ∷ 0 ∷ 0 ∷ 0 ∷ 1 ∷ 0 ∷ 0 ∷ 0 ∷ 0 ∷ 0 ∷ 0 ∷ 0 ∷ 1 ∷ 0 ∷ 0 ∷ 0 ∷ 0 ∷ 0
    ∷ 0 ∷ 0 ∷ 0 ∷ 0 ∷ 0 ∷ 0 ∷ 0 ∷ 0 ∷ 0 ∷ 0 ∷ 1 ∷ []

sorted : decode_inputs reader (cursor 0 swapped) ≡ ok (node ∷ nodes, cursor 35 [])
unfolding decode_inputs decode_input decode_u24_items decode_items decode_loop is_too_big move_on
    decode_u24 decode_u64 from_iter insert cmp from_be
sorted = refl

inputs-round_trip_example :
    (get_encoded encode_inputs (node ∷ nodes) ≡ ok (inputs_wire (node ∷ nodes)))
    × (get_decoded (decode_inputs reader) (inputs_wire (node ∷ nodes)) ≡ ok (node ∷ nodes))
    × IsOrdered (node ∷ nodes)
unfolding be_bytes
inputs-round_trip_example =
    inputs-round_trip reader (node ∷ nodes) (node ∷ nodes) (cursor 0 swapped) (cursor 35 [])
      ((omega arith, omega arith), ((omega arith, omega arith), tt)) (omega arith) nodes-IsOrdered
      sorted

abbrev vdaf : Poplar1
vdaf = record { input_length = 1 }

abbrev helper_param : Poplar1VerifyParam
helper_param = record { rand_init = 1 ∷ 2 ∷ 3 ∷ 4 ∷ []; input_length = 1; is_leader = false }

abbrev share : Poplar1InputShare ToyIdpf
share = record {
  idpf = second_key;
  sketch_start_seed = 2 ∷ 2 ∷ 2 ∷ 2 ∷ [];
  sketch_next = helper (3 ∷ 3 ∷ 3 ∷ 3 ∷ []);
}

four_fives : length (elements_wire field32 field32-IsFieldType (replicate 4 5)) ≤ 16
four_fives = omega (arith, length-wires field32 field32-IsFieldType (replicate 4 5))

toy_short : length (toy_wire field32 field32-IsFieldType second_key) ≤ 100
toy_short =
    let ws = elements_wire field32 field32-IsFieldType (replicate 4 5) in
    let table = table_wire field32 field32-IsFieldType (replicate 4 5) in
    omega (
      arith,
      four_fives,
      length_three table table (be_bytes 8 1),
      length-append (be_bytes 3 (length ws)) ws,
      length-be_bytes 3 (length ws),
      length-be_bytes 8 1,
    )

report-round_trip_example :
    (get_encoded encode_param helper_param ≡ ok (1 ∷ 2 ∷ 3 ∷ 4 ∷ 0 ∷ []))
    × (get_decoded (decode_param 4 vdaf) (1 ∷ 2 ∷ 3 ∷ 4 ∷ 0 ∷ []) ≡ ok helper_param)
    × (get_encoded (encode_share_of field32 (toy field32 random random reader)) share
        ≡ ok (
            share_wire field32 field32-IsFieldType 4
              (toy field32 random random reader)
              (toy-IsLawful field32 field32-IsFieldType reader)
              share))
    × (get_decoded (decode_share_of field32 (toy field32 random random reader) 4 helper_param) (
          share_wire field32 field32-IsFieldType 4
            (toy field32 random random reader)
            (toy-IsLawful field32 field32-IsFieldType reader)
            share)
        ≡ ok share)
    × (get_decoded (decode_share_of field32 (toy field32 random random reader) 4 helper_param) (
          share_wire field32 field32-IsFieldType 4
            (toy field32 random random reader)
            (toy-IsLawful field32 field32-IsFieldType reader)
            share
          ++ (9 ∷ 9 ∷ []))
        ≡ err (bytes_left_over 2))
    × (get_encoded (encode_message field32) (6 ∷ 7 ∷ [])
        ≡ ok (message_wire field32 field32-IsFieldType 4 (6 ∷ 7 ∷ [])))
    × (get_decoded
          (decode_message field32 reader)
          (message_wire field32 field32-IsFieldType 4 (6 ∷ 7 ∷ []))
        ≡ ok (6 ∷ 7 ∷ []))
report-round_trip_example =
    report-round_trip field32 field32-IsFieldType 4 (toy field32 random random reader)
      (toy-IsLawful field32 field32-IsFieldType reader) reader vdaf helper_param share (6 ∷ 7 ∷ [])
      9 (9 ∷ []) (omega arith) (omega arith) (refl, refl)
      (
        (
          (fives-lt 4, omega (arith, four_fives)),
          (fives-lt 4, omega (arith, four_fives)),
          omega arith,
        ),
        refl,
        refl,
      )
      (omega (
        arith,
        toy_short,
        length_three (toy_wire field32 field32-IsFieldType second_key) (2 ∷ 2 ∷ 2 ∷ 2 ∷ [])
            (3 ∷ 3 ∷ 3 ∷ 3 ∷ []),
      ))
      (
        (omega arith, (omega arith, tt)),
        omega (arith, length-wires field32 field32-IsFieldType (6 ∷ 7 ∷ [])),
      )
