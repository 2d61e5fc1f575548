-- ===== src/Codec/Progress.antt =====
-- Where the decoders of vectors stop, for any decoder of items.
use libprio_rs.Common.{
  ℕ, zero, suc, ◌+◌, ◌≤◌, ◌<◌, ◌≡◌, ◌≢◌, refl, ap, ◌∙◌, Bool, true, false, not, List, [], ◌∷◌, ◌++◌,
  length, length-take, take, drop, ltb, Bool-cases, inl, inr, arith, ltb→lt, lt→ltb,
}
use libprio_rs.Outcome.{Outcome, ok, err, diverged, ◌>>=◌, >>=-eq-ok, >>=-ne-diverged, guard}
use libprio_rs.Codec.{CodecError, length_prefix_too_big, Cursor, cursor, Decoder, decode_unit}
use libprio_rs.Codec.Items.{decode_loop, decode_items, is_too_big, move_on}

module _ {ℓ} {A : Type ℓ} (decode : Decoder A) where
  -- A decoder that returns, and that has moved when it gives a value.
  pub record Advances : Type ℓ where
    pub returns : (c : Cursor) → decode c ≢ diverged
    pub moves : (c : Cursor) (r : A × Cursor) → decode c ≡ ok r → c.position < r.1.position

  -- A decoder that moves within its slice.
  abbrev pub StaysInside : Type ℓ
  StaysInside =
      (c : Cursor) (r : A × Cursor)
      → decode c ≡ ok r
      → r.1.position + length r.1.unread ≡ c.position + length c.unread

  decode_loop-ne-diverged :
      Advances
      → (fuel len : ℕ) (sub : Cursor) (decoded : List A) → len < sub.position + fuel
      → 0 < fuel
      → decode_loop decode fuel len sub decoded ≢ diverged
  unfolding decode_loop
  decode_loop-ne-diverged adv zero len sub decoded h pos = absurd (omega arith)
  decode_loop-ne-diverged adv (suc fuel) len sub decoded h pos =
      elim (Bool-cases (ltb sub.position len)) [
        | inl more ↦ rw more (
            >>=-ne-diverged (decode sub) _ (adv.returns sub) λ r e.
              decode_loop-ne-diverged adv fuel len r.1 (decoded ++ (r.0 ∷ []))
                (omega (arith, adv.moves sub r e, ltb→lt _ _ more))
                (omega (arith, adv.moves sub r e, ltb→lt _ _ more)))
        | inr stop ↦ rw stop (λ e. cc)
      ]

  ok-ne-diverged :
      (r : List A × Cursor) → ◌≢◌ {A = Outcome CodecError (List A × Cursor)} (ok r) diverged
  ok-ne-diverged r q = cc

  guard-ne-diverged : (b : Bool) (e : CodecError) → guard b e ≢ diverged
  guard-ne-diverged true e = λ q. cc
  guard-ne-diverged false e = λ q. cc

  -- What `decode_items` does behind its check.
  abbrev read : ℕ → Decoder (List A)
  read len c = decode_loop decode (len + 1) len (cursor 0 (take len c.unread)) [] >>= λ r.
      ok (r.0, move_on c r.1)

  -- With a decoder of items that returns and takes a byte at least, `decode_items` returns: the
  -- `len + 1` rounds of the model are enough.
  pub decode_items-ne-diverged :
      Advances → (len : ℕ) (c : Cursor) → decode_items decode len c ≢ diverged
  unfolding decode_items
  decode_items-ne-diverged adv len c =
      >>=-ne-diverged (guard (not (is_too_big len c)) (length_prefix_too_big len)) (λ _. read len c)
        (guard-ne-diverged _ _)
        λ _ _.
          >>=-ne-diverged (decode_loop decode (len + 1) len (cursor 0 (take len c.unread)) [])
            (λ r. ok (r.0, move_on c r.1))
            (decode_loop-ne-diverged adv (len + 1) len (cursor 0 (take len c.unread)) []
              (omega arith) (omega arith))
            λ r e. ok-ne-diverged _

  decode_loop_inside :
      StaysInside
      → (fuel len : ℕ) (sub : Cursor) (decoded : List A) (r : List A × Cursor)
      → decode_loop decode fuel len sub decoded ≡ ok r
      → (len ≤ r.1.position) × (r.1.position + length r.1.unread ≡ sub.position + length sub.unread)
  unfolding decode_loop
  decode_loop_inside inside zero len sub decoded r e = cc
  decode_loop_inside inside (suc fuel) len sub decoded r e =
      elim (Bool-cases (ltb sub.position len)) [
        | inl more ↦
            let (a, read, rest) =
              >>=-eq-ok (decode sub) (λ a. decode_loop decode fuel len a.1 (decoded ++ (a.0 ∷ [])))
                (rw more at e) in
            let (done, kept) =
              decode_loop_inside inside fuel len a.1 (decoded ++ (a.0 ∷ [])) r rest in
            (done, kept ∙ inside sub a read)
        | inr stop ↦
            let last : ◌≡◌ {A = Outcome CodecError (List A × Cursor)} (ok (decoded, sub)) (ok r) =
              rw stop at e in
            ground arith
      ]

  -- With a decoder of items that stays within its slice, success means that exactly `len` bytes
  -- were read.
  pub decode_items_position :
      StaysInside
      → (len : ℕ) (c : Cursor) (items : List A) (c' : Cursor)
      → decode_items decode len c ≡ ok (items, c')
      → (c'.position ≡ c.position + len) × (c'.unread ≡ drop len c.unread)
  unfolding decode_items move_on
  decode_items_position inside len c items c' e =
      let (u, fits, e₁) =
        >>=-eq-ok (guard (not (is_too_big len c)) (length_prefix_too_big len)) (λ _. read len c)
          e in
      let (q, loop, e₂) =
        >>=-eq-ok (decode_loop decode (len + 1) len (cursor 0 (take len c.unread)) [])
          (λ r. ok (r.0, move_on c r.1)) e₁ in
      let (done, kept) =
        decode_loop_inside inside (len + 1) len (cursor 0 (take len c.unread)) [] q loop in
      let all : q.1.position ≡ len = omega (arith, done, kept, length-take len c.unread) in
      let same = ap (λ (k : ℕ). drop k c.unread) all in (ground arith, ground arith)

  -- A length past the end of the buffer is refused, also where the end overflows a `usize`.
  pub decode_items_too_big :
      (len : ℕ) (c : Cursor)
      → length c.unread < len
      → decode_items decode len c ≡ err (length_prefix_too_big len)
  unfolding decode_items is_too_big
  decode_items_too_big len c h = ground arith

-- A decoder that reads nothing, such as that of `()`, is called for ever on a vector that is not
-- empty: the loop ends for no number of rounds.
pub decode_unit-diverges :
    (fuel len : ℕ) (sub : Cursor) (decoded : List (Unit {0}))
    → sub.position < len
    → decode_loop decode_unit fuel len sub decoded ≡ diverged
unfolding decode_loop decode_unit
decode_unit-diverges zero len sub decoded h = refl
decode_unit-diverges (suc fuel) len sub decoded h =
    rw (lt→ltb sub.position len h) (decode_unit-diverges fuel len sub (decoded ++ (tt ∷ [])) h)
