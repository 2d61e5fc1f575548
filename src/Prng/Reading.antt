-- ===== src/Prng/Reading.antt =====
-- Reading from the generator of src/prng.rs: what it gives are the samples of the stream's buffers that
-- are elements, one after the other.
use libprio_rs.Common.{
  ℕ, zero, suc, ◌+◌, ◌*◌, ◌≤◌, ◌<◌, ◌≡◌, refl, ap, ◌∙◌, List, [], ◌∷◌, arith, ◌⊎◌, inl, inr, length,
  All,
}
use libprio_rs.Outcome.{Outcome, ok, diverged, ◌>>=◌}
use libprio_rs.Field.{FieldType}
use libprio_rs.Field.Codec.{IsFieldType}
use libprio_rs.Prg.{Prg}
use libprio_rs.Prng.{Prng, buffer_size_in_elements, serve, from_seed_stream, get, take_elements}
use libprio_rs.Prng.Chunks.{IsBuffer, samples, seek_lem}
use native.Mathlib.Nat.{mul-le-mul_left}

module _ (f : FieldType) (ok_f : IsFieldType f) {State Stream : Type 0}
    (prg : Prg State Stream) where
  open f use {fp, encoded_size}

  -- The buffer is whole chunks of bytes, and the index is a chunk's start or the end.
  pub record IsReady (s : Prng Stream) : Type 0 where
    pub chunk : ℕ
    pub left : ℕ
    pub buffer_whole : IsBuffer f ok_f buffer_size_in_elements s.buffer
    pub index_whole : s.buffer_index ≡ chunk * encoded_size
    pub index_inside : chunk + left ≡ buffer_size_in_elements

  -- The samples of the buffer that are to come, from the chunk of the state's index on.
  abbrev pub pending : (s : Prng Stream) → IsReady s → List ℕ
  pending s r = samples f ok_f s.buffer r.left r.chunk

  -- The reference: samples are taken from a list, and a buffer of the stream gives the next list,
  -- `fuel` lists at most for one sample.
  abbrev pub draw {ℓ} : {E : Type ℓ} → ℕ → List ℕ → Stream → Outcome E (ℕ × List ℕ × Stream)
  draw zero rest stream = diverged
  draw (suc fuel) (x ∷ rest) stream = ok (x, rest, stream)
  draw (suc fuel) [] stream =
      let n = buffer_size_in_elements * encoded_size in
      draw fuel (samples f ok_f (prg.fill stream n).0 buffer_size_in_elements 0)
        (prg.fill stream n).1

  abbrev pub draw_all {ℓ} :
      {E : Type ℓ} → (fuel n : ℕ) → List ℕ → Stream → Outcome E (List ℕ × List ℕ × Stream)
  draw_all fuel zero rest stream = ok ([], rest, stream)
  draw_all fuel (suc n) rest stream = do
    (x, rest', stream') ← draw fuel rest stream
    (xs, rest'', stream'') ← draw_all fuel n rest' stream'
    ok (x ∷ xs, rest'', stream'')

  pub from_seed_stream-IsReady : (stream : Stream) → IsReady (from_seed_stream f prg stream)
  unfolding from_seed_stream
  from_seed_stream-IsReady stream = record {
    chunk = 0;
    left = buffer_size_in_elements;
    buffer_whole = (prg.length-fill stream _, prg.fill-bytes stream _);
    index_whole = omega arith;
    index_inside = omega arith;
  }

  -- `get` does what `draw` does.
  get_lem {ℓ} :
      {E : Type ℓ} (fuel : ℕ) (s : Prng Stream) (r : IsReady s)
      → ((get f prg {E = E} fuel s ≡ diverged)
          × (draw {E = E} fuel (pending s r) s.stream ≡ diverged))
        ⊎ ((x : ℕ) × (s' : Prng Stream) × (r' : IsReady s') × (get f prg {E = E} fuel s
              ≡ ok (x, s'))
            × (draw {E = E} fuel (pending s r) s.stream ≡ ok (x, pending s' r', s'.stream))
            × (x < fp.p)
            × (s'.output_written ≡ s.output_written + 1))
  unfolding get serve
  get_lem {E = E} zero s r = inl (refl, refl)
  get_lem {E = E} (suc fuel) s r =
      let size = r.buffer_whole.0 in
      let enough : r.left ≤ length s.buffer = omega (
        arith,
        size,
        ok_f.size_pos,
        r.index_inside,
        mul-le-mul_left {m = 1} {n = encoded_size} buffer_size_in_elements ok_f.size_pos,
      ) in
      elim (seek_lem f ok_f {E = E} s.buffer buffer_size_in_elements (length s.buffer) r.left
        r.chunk r.buffer_whole r.index_inside enough) [
          | inl (none_left, empty) ↦
              let refilled : IsReady (record s {
                stream = (prg.fill s.stream (length s.buffer)).1;
                buffer = (prg.fill s.stream (length s.buffer)).0;
                buffer_index = 0;
              }) =
                record {
                  chunk = 0;
                  left = buffer_size_in_elements;
                  buffer_whole = (prg.length-fill s.stream _ ∙ size, prg.fill-bytes s.stream _);
                  index_whole = omega arith;
                  index_inside = omega arith;
                } in
              elim (get_lem {E = E} fuel _ refilled) [
                | inl (out, out') ↦ inl (rw (r.index_whole, none_left) out, rw (empty, ← size) out')
                | inr (x, s', r', e, e', hx, w) ↦
                    inr (x, s', r', rw (r.index_whole, none_left) e, rw (empty, ← size) e', hx, w)
              ]
          | inr (x, d', k', found, hx, hk', rest) ↦ inr (
            x,
            record s { buffer_index = k' * encoded_size; output_written = s.output_written + 1 },
            record {
              chunk = k';
              left = d';
              buffer_whole = r.buffer_whole;
              index_whole = refl;
              index_inside = hk';
            },
            rw (r.index_whole, found) refl,
            rw rest refl,
            hx,
            refl,
          )
        ]

  -- Reading `n` elements of a generator whose buffer is whole never panics and is no error, and reads
  -- what the reference does, of the samples that are pending and of the stream's next buffers: the
  -- same elements, which are reduced and as many as asked for, with the same samples pending and the
  -- same stream afterwards, a buffer that is whole again, and the elements counted; or both run out
  -- of fuel.
  pub take_elements-draw_all {ℓ} :
      {E : Type ℓ} (fuel n : ℕ) (s : Prng Stream) (r : IsReady s)
      → ((take_elements f prg {E = E} fuel n s ≡ diverged)
          × (draw_all {E = E} fuel n (pending s r) s.stream ≡ diverged))
        ⊎ ((xs : List ℕ) × (s' : Prng Stream) × (r' : IsReady s') × (take_elements f prg {E = E}
                fuel n s
              ≡ ok (xs, s'))
            × (draw_all {E = E} fuel n (pending s r) s.stream ≡ ok (xs, pending s' r', s'.stream))
            × (length xs ≡ n)
            × All (λ x. x < fp.p) xs
            × (s'.output_written ≡ s.output_written + n))
  unfolding take_elements
  take_elements-draw_all {E = E} fuel zero s r = inr ([], s, r, refl, refl, refl, tt, omega arith)
  take_elements-draw_all {E = E} fuel (suc n) s r = elim (get_lem {E = E} fuel s r) [
    | inl (out, out') ↦ inl (rw out refl, rw out' refl)
    | inr (x, s', r', e, e', hx, w) ↦ elim (take_elements-draw_all {E = E} fuel n s' r') [
      | inl (out, out') ↦ inl (rw (e, out) refl, rw (e', out') refl)
      | inr (xs, s'', r'', more, more', len, h, w') ↦ inr (
        x ∷ xs,
        s'',
        r'',
        rw (e, more) refl,
        rw (e', more') refl,
        ap suc len,
        (hx, h),
        omega arith,
      )
    ]
  ]

  -- What is read is reduced.
  pub take_elements_lem {ℓ} :
      {E : Type ℓ} (fuel n : ℕ) (s : Prng Stream)
      → IsReady s
      → (take_elements f prg {E = E} fuel n s ≡ diverged)
        ⊎ ((xs : List ℕ) × (s' : Prng Stream) × (take_elements f prg {E = E} fuel n s ≡ ok (xs, s'))
            × (length xs ≡ n)
            × All (λ x. x < fp.p) xs
            × IsReady s'
            × (s'.output_written ≡ s.output_written + n))
  take_elements_lem {E = E} fuel n s r = elim (take_elements-draw_all {E = E} fuel n s r) [
    | inl (out, out') ↦ inl out
    | inr (xs, s', r', e, e', len, h, w) ↦ inr (xs, s', e, len, h, r', w)
  ]
