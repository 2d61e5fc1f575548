-- ===== src/Prng.antt =====
-- src/prng.rs: field elements from a stream of bytes, by rejection.
pub mod Chunks
pub mod Reading
use libprio_rs.Common.{
  ℕ, zero, suc, ◌+◌, ◌-◌, ◌*◌, Bool, true, false, List, [], ◌∷◌, Option, some, none, ltb, leb,
  if◌then◌else◌, length, take, drop,
}
use libprio_rs.Outcome.{Outcome, ok, err, panicked, diverged, ◌>>=◌}
use libprio_rs.Codec.{
  FieldError, modulus_overflow, input_size_mismatch, short_read, field_io, codec,
}
use libprio_rs.Field.{FieldType, try_from_random}
use libprio_rs.Prg.{Prg}

abbrev pub buffer_size_in_elements : ℕ
buffer_size_in_elements = 128

pub record Prng (Stream : Type 0) : Type 0 where
  pub stream : Stream
  pub buffer : List ℕ
  pub buffer_index : ℕ
  pub output_written : ℕ

-- `Ok(x) => Some(x)`, `Err(ModulusOverflow) => None`, and a panic with any other error.
unfoldable pub accept {ℓ} : {E : Type ℓ} → Outcome FieldError ℕ → Outcome E (Option ℕ)
accept (ok x) = ok (some x)
accept (err modulus_overflow) = ok none
accept (err input_size_mismatch) = panicked
accept (err short_read) = panicked
accept (err field_io) = panicked
accept (err (codec e)) = panicked
accept panicked = panicked
accept diverged = diverged

-- `bytes[i..j]`
abbrev pub slice {ℓ} : {E : Type ℓ} → List ℕ → ℕ → ℕ → Outcome E (List ℕ)
slice bytes i j = if leb j (length bytes) then ok (take (j - i) (drop i bytes)) else panicked

-- The chunk is the sample, or the next one is tried.
unfoldable pub found_or {ℓ} :
    {E : Type ℓ} → ℕ → Option ℕ → Outcome E (Option (ℕ × ℕ)) → Outcome E (Option (ℕ × ℕ))
found_or j (some x) rest = ok (some (x, j))
found_or j none rest = rest

-- The sample is returned, or the buffer is filled again.
unfoldable pub serve {ℓ} :
    {Stream : Type 0} {E : Type ℓ}
    → Prng Stream
    → Option (ℕ × ℕ)
    → Outcome E (ℕ × Prng Stream)
    → Outcome E (ℕ × Prng Stream)
serve s (some (x, j)) again =
    ok (x, record s { buffer_index = j; output_written = s.output_written + 1 })
serve s none again = again

module _ (f : FieldType) where
  -- The chunks of the buffer from `i` on, `n` at most: the first that is an element, with the index
  -- of the next chunk.
  unfoldable pub seek {ℓ} : {E : Type ℓ} → List ℕ → ℕ → ℕ → Outcome E (Option (ℕ × ℕ))
  seek buffer zero i = ok none
  seek buffer (suc n) i =
      let j = i + f.encoded_size in
      let rest = seek buffer n j in
      if ltb i (length buffer)
      then (do chunk ← slice buffer i j; r ← accept (try_from_random f chunk); found_or j r rest)
      else ok none

  module _ {State Stream : Type 0} (prg : Prg State Stream) where
    unfoldable pub from_seed_stream : Stream → Prng Stream
    from_seed_stream seed_stream =
        let (bytes, rest) = prg.fill seed_stream (buffer_size_in_elements * f.encoded_size) in
        record { stream = rest; buffer = bytes; buffer_index = 0; output_written = 0 }

    -- `get`, with at most `fuel` buffers: a stream of rejected bytes is read for ever.
    unfoldable pub get {ℓ} : {E : Type ℓ} → ℕ → Prng Stream → Outcome E (ℕ × Prng Stream)
    get zero s = diverged
    get (suc fuel) s =
        let refill = prg.fill s.stream (length s.buffer) in
        let again =
          get fuel (record s { stream = refill.1; buffer = refill.0; buffer_index = 0 }) in
        do r ← seek s.buffer (length s.buffer) s.buffer_index; serve s r again

    -- `prng.take(n).collect()`
    unfoldable pub take_elements {ℓ} :
        {E : Type ℓ} → ℕ → ℕ → Prng Stream → Outcome E (List ℕ × Prng Stream)
    take_elements fuel zero s = ok ([], s)
    take_elements fuel (suc n) s = do
      (x, s') ← get fuel s
      (xs, s'') ← take_elements fuel n s'
      ok (x ∷ xs, s'')
