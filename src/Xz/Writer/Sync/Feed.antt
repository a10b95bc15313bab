-- ===== src/Xz/Writer/Sync/Feed.antt =====
-- The bytewise writer without its count.
use goxz.Base.{
  arith, ◌≤◌, ◌<◌, length, drop, sym, length-append, take-append, drop-append, Bool, true, false,
  if◌then◌else◌, ◌==◌, ℕ, ◌+◌, ◌≡◌, refl, ap, ◌∙◌, List, [], ◌∷◌, ◌++◌,
}
use goxz.Go.{Res, ok, fail}
use goxz.Go.Action.{Action, next, ◌>>=◌}
use goxz.Go.Action.Keeps.{Keeps, bind-Keeps}
use goxz.Errs.{Errs}
use goxz.Xz.Writer.Encode.{WriterApi, Writer}
use goxz.Xz.Writer.Sync.{block_encode_sync}
use goxz.Xz.Writer.Sync.Reset.{own_capacity, block_encode_sync-Keeps}
use goxz.Xz.Writer.Sync.Bytewise.{
  fill, put_bytes-fits, put_bytes-over, put_bytes, put_byte, store_byte, put_bytes-append,
}

module _ (api : WriterApi) (errs : Errs) (slice_reader : List ℕ → api.stream_api.Reader)
    (fuel : ℕ) where
  open api use {pipes}

  abbrev pub Outcome : Type 0
  Outcome = Res (Unit {0}) × Writer api errs

  abbrev pub uncounted : Res (Unit {0}) × (Writer api errs × ℕ) → Outcome
  uncounted r = (r.0, r.1.0)

  abbrev pub feed : List ℕ → ℕ → Action (Writer api errs) (Unit {0})
  feed bytes cnt w = uncounted (put_bytes api errs slice_reader fuel bytes (w, cnt))

  abbrev stored : ℕ → List ℕ → ℕ → Outcome → Outcome
  stored b bs cnt r = uncounted (
      next (λ _. put_bytes api errs slice_reader fuel bs)
        (store_byte api errs slice_reader fuel b cnt r))

  -- The count does not change what is done; `same` is that for the bytes that follow.
  stored-count :
      (b : ℕ) (bs : List ℕ)
      → ((m n : ℕ) (w : Writer api errs) → feed bs m w ≡ feed bs n w)
      → (m n : ℕ) (r : Outcome) → stored b bs m r ≡ stored b bs n r
  unfolding store_byte
  stored-count b bs same m n (ok _, w) = same (m + 1) (n + 1) _
  stored-count b bs same m n (fail f, w) = refl

  feed-count : (bytes : List ℕ) (m n : ℕ) (w : Writer api errs) → feed bytes m w ≡ feed bytes n w
  unfolding put_bytes put_byte ◌>>=◌
  feed-count [] m n w = refl
  feed-count (b ∷ bs) m n w = stored-count b bs (feed-count bs) m n _

  uncounted-next :
      (bytes : List ℕ) (r : Res (Unit {0}) × (Writer api errs × ℕ))
      → uncounted (next (λ _. put_bytes api errs slice_reader fuel bytes) r)
        ≡ next (λ _. feed bytes 0) (uncounted r)
  uncounted-next bytes (ok _, (w, n)) = feed-count bytes n 0 w
  uncounted-next bytes (fail f, (w, n)) = refl

  pub feed_nil : (w : Writer api errs) → feed [] 0 w ≡ (ok tt, w)
  unfolding put_bytes
  feed_nil w = refl

  pub feed-append :
      (xs ys : List ℕ) (w : Writer api errs)
      → feed (xs ++ ys) 0 w ≡ next (λ _. feed ys 0) (feed xs 0 w)
  unfolding ◌>>=◌
  feed-append xs ys w =
      (λ i. uncounted (put_bytes-append api errs slice_reader fuel xs ys i (w, 0)))
      ∙ uncounted-next ys (put_bytes api errs slice_reader fuel xs (w, 0))

  abbrev size : Writer api errs × ℕ → ℕ
  size s = own_capacity api errs slice_reader s.0

  store_byte-size :
      (b cnt : ℕ) (w : Writer api errs) (r : Outcome)
      → own_capacity api errs slice_reader r.1 ≡ own_capacity api errs slice_reader w
      → size (store_byte api errs slice_reader fuel b cnt r).1
        ≡ own_capacity api errs slice_reader w
  unfolding store_byte
  store_byte-size b cnt w (ok _, w') h = pipes.capacity_filled w'.rd_buf (b ∷ []) ∙ h
  store_byte-size b cnt w (fail f, w') h = h

  first_size :
      (full : Bool) (w : Writer api errs)
      → own_capacity api errs slice_reader
          (if full then block_encode_sync api errs slice_reader fuel w else (ok tt, w)).1
        ≡ own_capacity api errs slice_reader w
  first_size true w = block_encode_sync-Keeps api errs slice_reader fuel w
  first_size false w = refl

  put_byte-Keeps : (b : ℕ) → Keeps size (put_byte api errs slice_reader fuel b)
  unfolding put_byte
  put_byte-Keeps b s = store_byte-size b s.1 s.0 _ (first_size (pipes.room s.0.rd_buf == 0) s.0)

  put_bytes-Keeps : (bytes : List ℕ) → Keeps size (put_bytes api errs slice_reader fuel bytes)
  unfolding put_bytes
  put_bytes-Keeps [] = λ s. refl
  put_bytes-Keeps (b ∷ bs) = bind-Keeps size _ _ (put_byte-Keeps b) λ _. put_bytes-Keeps bs

  -- Putting bytes does not change the size of the pipe.
  pub feed-Keeps :
      (bytes : List ℕ) (w : Writer api errs)
      → own_capacity api errs slice_reader (feed bytes 0 w).1 ≡ own_capacity api errs slice_reader w
  feed-Keeps bytes w = put_bytes-Keeps bytes (w, 0)

  pub feed-fits :
      (bytes : List ℕ) (w : Writer api errs)
      → length bytes ≤ pipes.room w.rd_buf
      → feed bytes 0 w ≡ (ok tt, fill api errs slice_reader fuel w bytes)
  feed-fits bytes w h =
      ap uncounted
        (put_bytes-fits api errs slice_reader fuel bytes w 0 (length bytes) h (omega arith))

  pub feed-over :
      (head rest : List ℕ) (w : Writer api errs)
      → length head ≡ pipes.room w.rd_buf
      → 0 < length rest
      → 0 < pipes.capacity w.rd_buf
      → feed (head ++ rest) 0 w
        ≡ next
            (λ _. feed rest 0)
            (block_encode_sync api errs slice_reader fuel (fill api errs slice_reader fuel w head))
  feed-over head rest w h l c =
      let room = pipes.room w.rd_buf in
      ap uncounted (
        put_bytes-over api errs slice_reader fuel (head ++ rest) w 0
          (omega (arith, length-append head rest)) c)
      ∙ uncounted-next (drop room (head ++ rest)) _
      ∙ (λ i.
          next (λ _. feed (drop-append head rest room 0 (omega arith) i) 0)
            (block_encode_sync api errs slice_reader fuel
              (fill api errs slice_reader fuel w (take-append head rest room (sym h) i))))
