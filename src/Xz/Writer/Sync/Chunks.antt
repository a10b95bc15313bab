-- ===== src/Xz/Writer/Sync/Chunks.antt =====
-- Which blocks the writer encodes: the chunks of what was written, however it was cut into calls.
use goxz.Base.{
  Bool-cases, inl, inr, leb, subst, length-drop, length-take, take-append-drop, ℕ, zero, suc, ◌≤◌,
  ◌<◌, ◌≡◌, refl, sym, ap, ◌∙◌, arith, true, false, List, [], ◌∷◌, ◌++◌, length, take, drop, ltb,
  if◌then◌else◌,
}
use goxz.Go.{ok, fail}
use goxz.Go.Action.{Action, pure, next, next-next, ◌>>=◌}
use goxz.Errs.{Errs}
use goxz.Xz.Writer.Encode.{WriterApi, Writer}
use goxz.Xz.Writer.Sync.{block_encode_sync, write_loop, close_blocks}
use goxz.Xz.Writer.Sync.Reset.{
  own_capacity, block_encode_sync-Keeps, room-block_encode_sync, length-block_encode_sync,
}
use goxz.Xz.Writer.Sync.Feed.{
  Outcome, uncounted, feed, feed_nil, feed-append, feed-fits, feed-over, feed-Keeps,
}
use goxz.Xz.Writer.Sync.Bytewise.{fill, write_loop-put_bytes}

-- The bytes in chunks of n: every chunk has n bytes, but the last one may have fewer, and is not empty.
pub data Chunked (n : ℕ) : List ℕ → List (List ℕ) → Type 0 where
  nothing : Chunked n [] []
  last : {c : List ℕ} → 0 < length c → length c ≤ n → Chunked n c (c ∷ [])
  more :
      {c rest : List ℕ} {cs : List (List ℕ)}
      → length c ≡ n
      → 0 < length rest
      → Chunked n rest cs
      → Chunked n (c ++ rest) (c ∷ cs)

-- The slices, joined.
abbrev pub flat : List (List ℕ) → List ℕ
flat [] = []
flat (d ∷ ds) = d ++ flat ds

module _ (api : WriterApi) (errs : Errs) (slice_reader : List ℕ → api.stream_api.Reader)
    (fuel : ℕ) where
  open api use {pipes}

  abbrev encode : Action (Writer api errs) (Unit {0})
  encode = block_encode_sync api errs slice_reader fuel

  -- Each chunk is put into the empty pipe and encoded.
  pub encode_chunks : List (List ℕ) → Action (Writer api errs) (Unit {0})
  encode_chunks [] = pure tt
  encode_chunks (c ∷ cs) =
      λ w. next (λ _. encode_chunks cs) (encode (fill api errs slice_reader fuel w c))

  -- The loops of Write on one slice after another, up to a panic.
  pub write_all : List (List ℕ) → Action (Writer api errs) (Unit {0})
  write_all [] = pure tt
  write_all (d ∷ ds) = λ w.
      let (r, s) = write_loop api errs slice_reader (suc (length d)) fuel d (w, 0) in
      next (λ _. write_all ds) (r, s.0)

  abbrev fed : List ℕ → Action (Writer api errs) (Unit {0})
  fed bytes = feed api errs slice_reader fuel bytes 0

  abbrev sized : Writer api errs → ℕ
  sized w = own_capacity api errs slice_reader w

  next-same :
      (m n : Action (Writer api errs) (Unit {0})) (r : Outcome api errs slice_reader fuel)
      → m r.1 ≡ n r.1
      → next (λ _. m) r ≡ next (λ _. n) r
  next-same m n (ok _, w) h = h
  next-same m n (fail f, w) h = refl

  -- The calls of Write, one after another, put the bytes of all slices.
  write_all-fed :
      (ds : List (List ℕ)) (w : Writer api errs) → 0 < sized w → write_all ds w ≡ fed (flat ds) w
  unfolding write_all
  write_all-fed [] w h = sym (feed_nil api errs slice_reader fuel w)
  write_all-fed (d ∷ ds) w h =
      ap (λ r. next (λ _. write_all ds) (uncounted api errs slice_reader fuel r))
        (write_loop-put_bytes api errs slice_reader fuel (suc (length d)) d w 0 (omega arith)
          (omega arith) h)
      ∙ next-same (write_all ds) (fed (flat ds)) (fed d w) (
          write_all-fed ds (fed d w).1
            (let k = feed-Keeps api errs slice_reader fuel d w in omega arith))
      ∙ sym (feed-append api errs slice_reader fuel d (flat ds) w)

  -- What Close does first: it encodes what is left in the pipe.
  abbrev flushed : Outcome api errs slice_reader fuel → Outcome api errs slice_reader fuel
  flushed = next (λ _. close_blocks api errs slice_reader fuel)

  close_blocks-nil :
      (w : Writer api errs)
      → pipes.pipe_length w.rd_buf ≡ 0
      → close_blocks api errs slice_reader fuel w ≡ (ok tt, w)
  unfolding close_blocks ◌>>=◌
  close_blocks-nil w h =
      let e : ltb 0 (pipes.pipe_length w.rd_buf) ≡ false = ground arith in
      λ i. (if e i then encode else pure tt) w

  close_blocks-left :
      (w : Writer api errs)
      → 0 < pipes.pipe_length w.rd_buf
      → close_blocks api errs slice_reader fuel w ≡ encode w
  unfolding close_blocks ◌>>=◌
  close_blocks-left w h =
      let e : ltb 0 (pipes.pipe_length w.rd_buf) ≡ true = ground arith in
      λ i. (if e i then encode else pure tt) w

  next-pure : (r : Outcome api errs slice_reader fuel) → next (λ _. pure tt) r ≡ r
  next-pure (ok _, w) = refl
  next-pure (fail f, w) = refl

  fed-chunks :
      (n : ℕ) (bytes : List ℕ) (cs : List (List ℕ)) (w : Writer api errs)
      → Chunked n bytes cs
      → 0 < n
      → sized w ≡ n
      → pipes.room w.rd_buf ≡ n
      → pipes.pipe_length w.rd_buf ≡ 0
      → flushed (fed bytes w) ≡ encode_chunks cs w
  unfolding encode_chunks
  fed-chunks n _ _ w nothing p s r l =
      ap flushed (feed_nil api errs slice_reader fuel w) ∙ close_blocks-nil w l
  fed-chunks n _ _ w (last {c} c0 cn) p s r l =
      let stored = fill api errs slice_reader fuel w c in
      let m = pipes.length_filled w.rd_buf c in
      ap flushed (feed-fits api errs slice_reader fuel c w (omega arith))
      ∙ close_blocks-left stored (omega arith)
      ∙ sym (next-pure (encode stored))
  fed-chunks n _ _ w (more {c} {rest} {cs} cn r0 ch) p s r l =
      let stored = fill api errs slice_reader fuel w c in
      let f = pipes.capacity_filled w.rd_buf c in
      let k = block_encode_sync-Keeps api errs slice_reader fuel stored in
      let e = room-block_encode_sync api errs slice_reader fuel stored in
      ap flushed (feed-over api errs slice_reader fuel c rest w (omega arith) r0 (omega arith))
      ∙ next-next (encode stored) (λ _. fed rest) (λ _. close_blocks api errs slice_reader fuel)
      ∙ next-same _ (encode_chunks cs) (encode stored) (
          fed-chunks n rest cs (encode stored).1 ch p (omega arith) (omega arith)
            (length-block_encode_sync api errs slice_reader fuel stored))

  -- A writer whose pipe is empty encodes, in the calls of Write and the Close that follows, the chunks
  -- of what was written, in order, however it was cut into calls; where a block fails, so does the
  -- call, and what has been done is the same.
  pub write_all-chunks :
      (n : ℕ) (ds cs : List (List ℕ)) (w : Writer api errs)
      → Chunked n (flat ds) cs
      → 0 < n
      → pipes.capacity w.rd_buf ≡ n
      → pipes.room w.rd_buf ≡ n
      → pipes.pipe_length w.rd_buf ≡ 0
      → (write_all ds >>= λ _. close_blocks api errs slice_reader fuel) w ≡ encode_chunks cs w
  unfolding ◌>>=◌
  write_all-chunks n ds cs w ch p s r l =
      ap flushed (write_all-fed ds w (omega arith)) ∙ fed-chunks n (flat ds) cs w ch p s r l

-- Any bytes have chunks of n, where n is not 0.
chunk_with :
    (fuel n : ℕ) (bytes : List ℕ)
    → length bytes ≤ fuel
    → 0 < n
    → (cs : List (List ℕ)) × Chunked n bytes cs
chunk_with fuel n [] h p = ([], nothing)
chunk_with zero n (b ∷ bs) h p = absurd (omega arith)
chunk_with (suc fuel) n (b ∷ bs) h p =
    let bytes : List ℕ = b ∷ bs in
    elim (Bool-cases (leb (length bytes) n)) [
      | inl fits ↦ (bytes ∷ [], last (omega arith) (ground arith))
      | inr over ↦
          let long : n < length bytes = ground arith in
          let d = length-drop n bytes in
          let (cs, ch) = chunk_with fuel n (drop n bytes) (omega arith) p in
          (
            take n bytes ∷ cs,
            subst (λ xs. Chunked n xs (take n bytes ∷ cs)) (take-append-drop n bytes)
                (more (omega (arith, length-take n bytes)) (omega arith) ch),
          )
    ]

pub chunks_exist : (n : ℕ) (bytes : List ℕ) → 0 < n → (cs : List (List ℕ)) × Chunked n bytes cs
chunks_exist n bytes p = chunk_with (length bytes) n bytes (omega arith) p
