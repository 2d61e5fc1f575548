-- ===== src/Poplar1/ToyPoints.antt =====
-- The keys of `ToyIdpf` in src/vdaf/poplar1.rs share a point function.
use libprio_rs.Common.{
  ℕ, suc, ◌+◌, ◌/◌, ◌^◌, ◌≤◌, ◌<◌, ◌≡◌, refl, sym, ap, ◌∙◌, List, [], ◌∷◌, arith, length, All,
  lt→ltb, le→leb, map, replicate, length-replicate,
}
use libprio_rs.Common.Words.{usize_word}
use libprio_rs.Outcome.{Outcome, ok}
use libprio_rs.Codec.{ReadBytesExt}
use libprio_rs.Fp.Log2.{log2-least}
use libprio_rs.Field.{FieldType, add_each, split_vector}
use libprio_rs.Field.Codec.{IsFieldType}
use libprio_rs.Field.Elementwise.{IsVector}
use libprio_rs.Field.Sums.{zeros-IsVector}
use libprio_rs.Field.Vectors.{split_vector-merge, merge_lem, merge_all}
use libprio_rs.Vdaf.{VdafError}
use libprio_rs.Poplar1.{IdpfInput}
use libprio_rs.Poplar1.Points.{
  one_bit, IsInput, place, point, IsValue, IsShared, data_index_lem, place-lt,
}
use libprio_rs.Poplar1.Tables.{
  at, index-at, at-add_each, at-All, fill, length-fill, fill_tables_lem,
}
use libprio_rs.Poplar1.Toy.{ToyIdpf, max_data_bytes, max_input_len, two_shares, gen, eval, toy}
use native.Mathlib.Nat.{pow-le-pow_right, div-le_self, le-div_iff_mul-le}
use libprio_rs.Poplar1.WholeTables.{fill-All, values-All, from_root, whole_table}

module _ (f : FieldType) (ok_f : IsFieldType f) where
  open f use {fp}

  max_input_len-le : max_input_len f ≤ 20
  unfolding max_input_len
  max_input_len-le =
      let n = max_data_bytes / f.encoded_size in
      let pos : 1 ≤ n = (le-div_iff_mul-le ok_f.size_pos).1 (omega (arith, ok_f.size_le)) in
      let small : n ≤ 2 ^ 20 = div-le_self max_data_bytes f.encoded_size in
      (log2-least n 20 (omega arith) (omega arith) small).1

  -- The share behind the first.
  second_share :
      (n : ℕ) (a table : List ℕ) (shares : List (List ℕ))
      → length shares ≡ 1
      → IsVector f n a
      → All (IsVector f n) shares
      → merge_all f a shares ≡ ok table
      → (b : List ℕ) × (shares ≡ b ∷ []) × IsVector f n b × (add_each f a b ≡ table)
  second_share n a table [] len ha h e = absurd (omega arith)
  second_share n a table (b ∷ c ∷ shares) len ha h e = absurd (omega arith)
  second_share n a table (b ∷ []) len ha (hb, h) e =
      let merged : ok (add_each f a b) ≡ ok table =
        rw (merge_lem f ok_f.p_lt_word n a b ha hb) at e in
      (b, refl, hb, cc merged)

  -- The two shares that `split_vector` makes of a table.
  split_table :
      (random : ℕ → Outcome VdafError (List ℕ)) (draw : ℕ → List ℕ) (n : ℕ) (table : List ℕ)
      → ((k : ℕ) → random k ≡ ok (draw k))
      → ((k : ℕ) → IsVector f n (draw k))
      → IsVector f n table
      → (a b : List ℕ) × (split_vector f random table 2 ≡ ok (a ∷ b ∷ []))
        × IsVector f n a
        × IsVector f n b
        × (add_each f a b ≡ table)
  split_table random draw n table h hd ht =
      let (a, shares, split, len, (ha, hs), merged) =
        split_vector-merge f ok_f.p_lt_word random draw n 1 table h hd ht in
      let (b, only, hb, sum) = second_share n a table shares len ha hs merged in
      (a, b, split ∙ ap (λ (t : List (List ℕ)). ok (a ∷ t)) only, ha, hb, sum)

  -- A key evaluates to what stands at the place of a node.
  eval_lem :
      (key : ToyIdpf) (node : IdpfInput) (n : ℕ)
      → node.level ≤ key.level
      → IsInput node
      → place node < 2 ^ n
      → length key.data0 ≡ 2 ^ n
      → length key.data1 ≡ 2 ^ n
      → eval f key node ≡ ok (at key.data0 (place node), at key.data1 (place node))
  unfolding eval
  eval_lem key node n le hn low l0 l1 =
      rw
        (
          le→leb node.level key.level le,
          data_index_lem node hn,
          index-at key.data0 (place node) (omega arith),
          index-at key.data1 (place node) (omega arith),
        )
        refl

  module _ (random0 random1 : ℕ → ℕ → Outcome VdafError (List ℕ)) (draw0 draw1 : ℕ → ℕ → List ℕ)
      (drawn0 : (n k : ℕ) → random0 n k ≡ ok (draw0 n k))
      (drawn1 : (n k : ℕ) → random1 n k ≡ ok (draw1 n k))
      (vector0 : (n k : ℕ) → IsVector f n (draw0 n k))
      (vector1 : (n k : ℕ) → IsVector f n (draw1 n k)) where
    -- What `gen` returns: two keys whose tables add up to those of the loop.
    gen_lem :
        (input : IdpfInput) (values : List (ℕ × ℕ))
        → IsInput input
        → input.level ≤ max_input_len f
        → input.level < length values
        → All (IsValue f) values
        → (a b : ToyIdpf) × (gen f random0 random1 input values ≡ ok (a, b))
          × (a.level ≡ input.level)
          × (b.level ≡ input.level)
          × IsVector f (2 ^ (input.level + 1)) a.data0
          × IsVector f (2 ^ (input.level + 1)) b.data0
          × IsVector f (2 ^ (input.level + 1)) a.data1
          × IsVector f (2 ^ (input.level + 1)) b.data1
          × (add_each f a.data0 b.data0
              ≡ fill input 0
                  (input.level + 1)
                  (map (λ v. v.0) values)
                  (replicate (2 ^ (input.level + 1)) 0))
          × (add_each f a.data1 b.data1
              ≡ fill input 0
                  (input.level + 1)
                  (map (λ v. v.1) values)
                  (replicate (2 ^ (input.level + 1)) 0))
    unfolding gen two_shares
    gen_lem input values hi le len h =
        let n = input.level + 1 in
        let zeros : List ℕ = replicate (2 ^ n) 0 in
        let (h0, h1) = values-All f values h in
        let hz =
          (zeros-IsVector f ok_f.p_lt_word ok_f.parameters.montgomery_form.p_pos (2 ^ n)).1 in
        let t0 = fill input 0 n (map (λ v. v.0) values) zeros in
        let t1 = fill input 0 n (map (λ v. v.1) values) zeros in
        let l0 : length t0 ≡ 2 ^ n =
          length-fill input 0 n _ zeros ∙ length-replicate {A = ℕ} (2 ^ n) 0 in
        let l1 : length t1 ≡ 2 ^ n =
          length-fill input 0 n _ zeros ∙ length-replicate {A = ℕ} (2 ^ n) 0 in
        let v0 = fill-All (λ x. x < fp.p) input 0 n _ zeros h0 hz in
        let v1 = fill-All (λ x. x < fp.p) input 0 n _ zeros h1 hz in
        let (a0, b0, s0, ha0, hb0, e0) =
          split_table (random0 (2 ^ n)) (draw0 (2 ^ n)) (2 ^ n) t0 (drawn0 (2 ^ n))
            (vector0 (2 ^ n)) (l0, v0) in
        let (a1, b1, s1, ha1, hb1, e1) =
          split_table (random1 (2 ^ n)) (draw1 (2 ^ n)) (2 ^ n) t1 (drawn1 (2 ^ n))
            (vector1 (2 ^ n)) (l1, v1) in
        let bound = max_input_len-le in
        (
          record { data0 = a0; data1 = a1; level = input.level },
          record { data0 = b0; data1 = b1; level = input.level },
          rw
              (
                le→leb input.level (max_input_len f) le,
                lt→ltb n usize_word (omega arith),
                lt→ltb n 64 (omega arith),
                one_bit n (omega arith),
                fill_tables_lem {E = VdafError} input 0 n values zeros zeros (omega arith)
                    (omega arith) (omega (arith, length-replicate {A = ℕ} (2 ^ n) 0, from_root n))
                    (omega (arith, length-replicate {A = ℕ} (2 ^ n) 0, from_root n)),
                l0,
                l1,
                s0,
                s1,
              )
              refl,
          refl,
          refl,
          ha0,
          hb0,
          ha1,
          hb1,
          e0,
          e1,
        )

    -- The keys, and what they evaluate to on every node down to the input's level.
    pub gen_points :
        (r : ReadBytesExt) (input : IdpfInput) (values : List (ℕ × ℕ))
        → IsInput input
        → input.level ≤ max_input_len f
        → input.level < length values
        → All (IsValue f) values
        → (a b : ToyIdpf) × (gen f random0 random1 input values ≡ ok (a, b))
          × ((node : IdpfInput)
              → IsInput node
              → node.level ≤ input.level
              → IsShared f (toy f random0 random1 r) a b node (point input values node))
    gen_points r input values hi le len h =
        let n = input.level + 1 in
        let (a, b, made, la, lb, ha0, hb0, ha1, hb1, e0, e1) = gen_lem input values hi le len h in
        let bound = max_input_len-le in
        (
          a,
          b,
          made,
          λ node hn deep.
              let j = place node in
              let grows =
                pow-le-pow_right {n = 2} (omega arith) {i = suc node.level} {j = n} (omega arith) in
              let low : j < 2 ^ n = omega (arith, place-lt node hn, grows) in
              let table0 =
                whole_table input node (λ v. v.0) values refl hi (omega arith) len hn deep in
              let table1 =
                whole_table input node (λ v. v.1) values refl hi (omega arith) len hn deep in
              record {
                first = (at a.data0 j, at a.data1 j);
                second = (at b.data0 j, at b.data1 j);
                first_eval = eval_lem a node n (omega arith) hn low (ha0.0) (ha1.0);
                second_eval = eval_lem b node n (omega arith) hn low (hb0.0) (hb1.0);
                first_IsValue = (
                  at-All (λ x. x < fp.p) a.data0 j (ha0.1) (omega (arith, ha0.0)),
                  at-All (λ x. x < fp.p) a.data1 j (ha1.1) (omega (arith, ha1.0)),
                );
                second_IsValue = (
                  at-All (λ x. x < fp.p) b.data0 j (hb0.1) (omega (arith, hb0.0)),
                  at-All (λ x. x < fp.p) b.data1 j (hb1.1) (omega (arith, hb1.0)),
                );
                sum0 =
                    sym
                      (at-add_each f a.data0 b.data0 j (omega (arith, ha0.0)) (ha0.0 ∙ sym (hb0.0)))
                    ∙ ap (λ (t : List ℕ). at t j) e0
                    ∙ table0;
                sum1 =
                    sym
                      (at-add_each f a.data1 b.data1 j (omega (arith, ha1.0)) (ha1.0 ∙ sym (hb1.0)))
                    ∙ ap (λ (t : List ℕ). at t j) e1
                    ∙ table1;
              },
        )

    -- With the random vectors drawn as reduced vectors of the length asked for, an input of as many bits
    -- as its level, no more than `gen` takes, and reduced values for every level down to it, `gen`
    -- returns two keys. On a node of as many bits as its level, down to the input's level, both
    -- evaluate, to reduced pairs that add up to the point function of the input: the level's value
    -- where the node is a prefix of the input, and zeros elsewhere.
    pub gen-IsShared :
        (r : ReadBytesExt) (input : IdpfInput) (values : List (ℕ × ℕ)) (node : IdpfInput)
        → IsInput input
        → input.level ≤ max_input_len f
        → input.level < length values
        → All (IsValue f) values
        → IsInput node
        → node.level ≤ input.level
        → (a b : ToyIdpf) × (gen f random0 random1 input values ≡ ok (a, b))
          × IsShared f (toy f random0 random1 r) a b node (point input values node)
    gen-IsShared r input values node hi le len h hn deep =
        let (a, b, made, shared) = gen_points r input values hi le len h in
        (a, b, made, shared node hn deep)
