-- ===== src/Xz/Writer/Sync/Bytewise.antt =====
-- The loop of Write against a writer that takes one byte at a time.
use goxz.Base.{
  ℕ, zero, suc, ◌+◌, ◌≤◌, ◌<◌, ◌≡◌, refl, sym, ap, ◌∙◌, arith, Bool, true, false, Bool-cases, inl,
  inr, List, [], ◌∷◌, ◌++◌, length, take, drop, min, Option, none, some, ◌==◌, leb, if◌then◌else◌,
  take_all, take-append-drop, length-take, length-drop,
}
use goxz.Go.{Err, short_write, Res, ok, fail}
use goxz.Go.Action.{Action, pure, ◌>>=◌, next, bind-ok, bind_assoc}
use goxz.Errs.{Errs}
use goxz.Xz.Writer.Encode.{WriterApi, Writer}
use goxz.Xz.Writer.Sync.{settle, write_round, block_encode_sync, write_loop}
use goxz.Xz.Writer.Sync.Reset.{block_encode_sync-Keeps, room-block_encode_sync}

module _ (api : WriterApi) (errs : Errs) (slice_reader : List ℕ → api.stream_api.Reader)
    (fuel : ℕ) where
  open api use {pipes}

  unfoldable pub store_byte :
      ℕ → ℕ → Res (Unit {0}) × Writer api errs → Res (Unit {0}) × (Writer api errs × ℕ)
  store_byte b cnt (fail f, w) = (fail f, (w, cnt))
  store_byte b cnt (ok _, w) =
      (ok tt, (record w { rd_buf = pipes.filled w.rd_buf (b ∷ []) }, cnt + 1))

  -- A full pipe is encoded first; then the byte goes into the pipe.
  unfoldable pub put_byte : ℕ → Action (Writer api errs × ℕ) (Unit {0})
  put_byte b (w, cnt) = store_byte b cnt (
      if pipes.room w.rd_buf == 0
      then block_encode_sync api errs slice_reader fuel w
      else (ok tt, w))

  unfoldable pub put_bytes : List ℕ → Action (Writer api errs × ℕ) (Unit {0})
  put_bytes [] = pure tt
  put_bytes (b ∷ bs) = put_byte b >>= λ _. put_bytes bs

  put_bytes-cons :
      (b : ℕ) (bs : List ℕ) (s : Writer api errs × ℕ)
      → put_bytes (b ∷ bs) s ≡ next (λ _. put_bytes bs) (put_byte b s)
  unfolding put_bytes ◌>>=◌
  put_bytes-cons b bs s = refl

  put_bytes-nil : (s : Writer api errs × ℕ) → put_bytes [] s ≡ (ok tt, s)
  unfolding put_bytes
  put_bytes-nil s = refl

  abbrev pub fill : Writer api errs → List ℕ → Writer api errs
  fill w bytes = record w { rd_buf = pipes.filled w.rd_buf bytes }

  pub put_byte-room :
      (b : ℕ) (w : Writer api errs) (cnt : ℕ)
      → 0 < pipes.room w.rd_buf
      → put_byte b (w, cnt) ≡ (ok tt, (fill w (b ∷ []), cnt + 1))
  unfolding put_byte store_byte
  put_byte-room b w cnt h =
      let e : (pipes.room w.rd_buf == 0) ≡ false = ground arith in
      λ i.
        store_byte b cnt
          (if e i then block_encode_sync api errs slice_reader fuel w else (ok tt, w))

  -- Bytes that fit are only stored.
  pub put_bytes-fits :
      (bytes : List ℕ) (w : Writer api errs) (cnt total : ℕ)
      → length bytes ≤ pipes.room w.rd_buf
      → cnt + length bytes ≡ total
      → put_bytes bytes (w, cnt) ≡ (ok tt, (fill w bytes, total))
  unfolding put_bytes
  put_bytes-fits [] w cnt total h t =
      let e : cnt ≡ total = omega arith in
      λ i. (ok tt, (record w { rd_buf = sym (pipes.filled_nil w.rd_buf) i }, e i))
  put_bytes-fits (b ∷ bs) w cnt total h t =
      let r = pipes.room_filled w.rd_buf (b ∷ []) (omega arith) in
      bind-ok (put_byte b) _ (w, cnt) (fill w (b ∷ []), cnt + 1) tt
        (put_byte-room b w cnt (omega arith))
      ∙ put_bytes-fits bs (fill w (b ∷ [])) (cnt + 1) total (omega arith) (omega arith)
      ∙ (λ i.
          (ok tt, (record w { rd_buf = sym (pipes.filled_append w.rd_buf (b ∷ []) bs) i }, total)))

  put_byte-full :
      (b : ℕ) (w : Writer api errs) (cnt : ℕ)
      → pipes.room w.rd_buf ≡ 0
      → put_byte b (w, cnt) ≡ store_byte b cnt (block_encode_sync api errs slice_reader fuel w)
  unfolding put_byte
  put_byte-full b w cnt h =
      let e : (pipes.room w.rd_buf == 0) ≡ true = ground arith in
      λ i.
        store_byte b cnt
          (if e i then block_encode_sync api errs slice_reader fuel w else (ok tt, w))

  pub put_bytes-append :
      (xs ys : List ℕ) → put_bytes (xs ++ ys) ≡ (put_bytes xs >>= λ _. put_bytes ys)
  unfolding put_bytes ◌>>=◌
  put_bytes-append [] ys = refl
  put_bytes-append (x ∷ xs) ys =
      (λ i. put_byte x >>= λ _. put_bytes-append xs ys i) ∙ sym (bind_assoc (put_byte x) _ _)

  abbrev pub counted : ℕ → Res (Unit {0}) × Writer api errs → Res (Unit {0}) × (Writer api errs × ℕ)
  counted cnt r = (r.0, (r.1, cnt))

  abbrev Rest : Type 0
  Rest = Action (Writer api errs × ℕ) (Unit {0})

  next-same :
      (cnt : ℕ) (m n : Rest) (r : Res (Unit {0}) × Writer api errs)
      → m (r.1, cnt) ≡ n (r.1, cnt)
      → next (λ _. m) (counted cnt r) ≡ next (λ _. n) (counted cnt r)
  next-same cnt m n (ok _, w) h = h
  next-same cnt m n (fail f, w) h = refl

  store-next :
      (c cnt : ℕ) (rest : List ℕ) (r : Res (Unit {0}) × Writer api errs)
      → 0 < pipes.room r.1.rd_buf
      → next (λ _. put_bytes rest) (store_byte c cnt r)
        ≡ next (λ _. put_bytes (c ∷ rest)) (counted cnt r)
  unfolding store_byte put_bytes
  store-next c cnt rest (ok _, w) h = sym (
      bind-ok (put_byte c) (λ _. put_bytes rest) (w, cnt) (fill w (c ∷ []), cnt + 1) tt
        (put_byte-room c w cnt h))
  store-next c cnt rest (fail f, w) h = refl

  put_bytes-at_full :
      (bytes : List ℕ) (w : Writer api errs) (cnt : ℕ)
      → 0 < length bytes
      → pipes.room w.rd_buf ≡ 0
      → 0 < pipes.capacity w.rd_buf
      → put_bytes bytes (w, cnt)
        ≡ next (λ _. put_bytes bytes) (counted cnt (block_encode_sync api errs slice_reader fuel w))
  put_bytes-at_full [] w cnt l h k = absurd (omega arith)
  put_bytes-at_full (c ∷ rest) w cnt l h k =
      let r = block_encode_sync api errs slice_reader fuel w in
      put_bytes-cons c rest (w, cnt)
      ∙ ap (next (λ _. put_bytes rest)) (put_byte-full c w cnt h)
      ∙ store-next c cnt rest r
          (let e = room-block_encode_sync api errs slice_reader fuel w in omega arith)

  -- Bytes that do not fit: the pipe is filled and encoded, and the rest goes on.
  pub put_bytes-over :
      (bytes : List ℕ) (w : Writer api errs) (cnt : ℕ)
      → pipes.room w.rd_buf < length bytes
      → 0 < pipes.capacity w.rd_buf
      → put_bytes bytes (w, cnt)
        ≡ next
            (λ _. put_bytes (drop (pipes.room w.rd_buf) bytes))
            (counted (cnt + pipes.room w.rd_buf) (
              block_encode_sync api errs slice_reader fuel
                (fill w (take (pipes.room w.rd_buf) bytes))))
  unfolding ◌>>=◌
  put_bytes-over bytes w cnt h k =
      let r = pipes.room w.rd_buf in
      let head = take r bytes in
      let rest = drop r bytes in
      let split : put_bytes bytes ≡ (put_bytes head >>= λ _. put_bytes rest) =
        ap put_bytes (sym (take-append-drop r bytes)) ∙ put_bytes-append head rest in
      let l : length head ≡ r = omega (arith, length-take r bytes) in
      let room0 = pipes.room_filled w.rd_buf head (omega arith) in
      (λ i. split i (w, cnt))
      ∙ bind-ok (put_bytes head) (λ _. put_bytes rest) (w, cnt) (fill w head, cnt + r) tt
          (put_bytes-fits head w cnt (cnt + r) (omega arith) (omega arith))
      ∙ put_bytes-at_full rest (fill w head) (cnt + r) (omega (arith, length-drop r bytes))
          (omega arith) (let c = pipes.capacity_filled w.rd_buf head in omega arith)

  -- `settle` where nothing but a short write has happened.
  settle-short :
      (cnt : ℕ) (err : Option Err) (more : Rest) (r : Res (Unit {0}) × Writer api errs)
      → errs.panic (errs.ignore err (short_write ∷ [])) ≡ ok tt
      → settle api errs slice_reader cnt err more r ≡ next (λ _. more) (counted cnt r)
  unfolding settle
  settle-short cnt err more (fail f, w) h = refl
  settle-short cnt err more (ok _, w) h = rw (settle, h)

  short_ignored :
      (b : Bool)
      → errs.panic (errs.ignore (if b then none else some short_write) (short_write ∷ [])) ≡ ok tt
  short_ignored true = rw (errs.ignore_none, errs.panic_none)
  short_ignored false = rw (errs.ignore_some, errs.panic_none)

  -- One round, by the law of the pipe's Write.
  abbrev round :
      Bool
      → (List ℕ → Rest)
      → ℕ
      → List ℕ
      → Writer api errs
      → ℕ
      → Res (Unit {0}) × (Writer api errs × ℕ)
  round fits more n bytes w cnt =
      let stored = fill w (take (pipes.room w.rd_buf) bytes) in
      next (λ _. more (drop n bytes))
        (counted (cnt + n)
          (if fits then (ok tt, stored) else block_encode_sync api errs slice_reader fuel stored))

  write_round_lem :
      (fits : Bool) (more : List ℕ → Rest) (n : ℕ) (bytes : List ℕ) (w : Writer api errs) (cnt : ℕ)
      → write_round api errs slice_reader fuel more bytes w cnt (
        pipes.filled w.rd_buf (take (pipes.room w.rd_buf) bytes),
        n,
        if fits then none else some short_write,
      )
        ≡ round fits more n bytes w cnt
  unfolding write_round
  write_round_lem true more n bytes w cnt = settle-short (cnt + n) none _ _ (short_ignored true)
  write_round_lem false more n bytes w cnt =
      settle-short (cnt + n) (some short_write) _ _ (short_ignored false)

  write_loop-suc :
      (rounds : ℕ) (bytes : List ℕ) (w : Writer api errs) (cnt : ℕ)
      → 0 < length bytes
      → write_loop api errs slice_reader (suc rounds) fuel bytes (w, cnt)
        ≡ round
            (leb (length bytes) (pipes.room w.rd_buf))
            (write_loop api errs slice_reader rounds fuel)
            (min (pipes.room w.rd_buf) (length bytes))
            bytes
            w
            cnt
  unfolding write_loop
  write_loop-suc rounds [] w cnt h = absurd (omega arith)
  write_loop-suc rounds (b ∷ bs) w cnt h =
      ap
        (write_round api errs slice_reader fuel (write_loop api errs slice_reader rounds fuel)
          (b ∷ bs) w cnt)
        (pipes.write_lem w.rd_buf (b ∷ bs))
      ∙ write_round_lem (leb (length (b ∷ bs)) (pipes.room w.rd_buf)) _ _ (b ∷ bs) w cnt

  write_loop-nil :
      (rounds : ℕ) (bytes : List ℕ) (s : Writer api errs × ℕ)
      → length bytes ≡ 0
      → write_loop api errs slice_reader rounds fuel bytes s ≡ (ok tt, s)
  unfolding write_loop
  write_loop-nil zero [] s h = refl
  write_loop-nil (suc rounds) [] s h = refl
  write_loop-nil rounds (b ∷ bs) s h = absurd (omega arith)

  -- The loop of Write in the block mode never runs out of rounds, and does what putting the bytes
  -- into the pipe one at a time does, errors and counts included, where the pipe is not of size 0 and
  -- there are rounds for the bytes that do not fit in it.
  pub write_loop-put_bytes :
      (rounds : ℕ) (bytes : List ℕ) (w : Writer api errs) (cnt : ℕ)
      → length bytes < rounds + pipes.room w.rd_buf
      → 0 < rounds
      → 0 < pipes.capacity w.rd_buf
      → write_loop api errs slice_reader rounds fuel bytes (w, cnt) ≡ put_bytes bytes (w, cnt)
  write_loop-put_bytes zero bytes w cnt h r c = absurd (omega arith)
  write_loop-put_bytes (suc rounds) [] w cnt h r c =
      write_loop-nil (suc rounds) [] (w, cnt) refl ∙ sym (put_bytes-nil (w, cnt))
  write_loop-put_bytes (suc rounds) (b ∷ bs) w cnt h r c =
      let bytes : List ℕ = b ∷ bs in
      let room = pipes.room w.rd_buf in
      elim (Bool-cases (leb (length bytes) room)) [
        | inl fits ↦
            let l : length bytes ≤ room = ground arith in
            let m : min room (length bytes) ≡ length bytes = omega arith in
            write_loop-suc rounds bytes w cnt (omega arith)
            ∙ (λ i. round (fits i) (write_loop api errs slice_reader rounds fuel) (m i) bytes w cnt)
            ∙ write_loop-nil rounds (drop (length bytes) bytes)
                (fill w (take room bytes), cnt + length bytes)
                (omega (arith, length-drop (length bytes) bytes))
            ∙ (λ i. (ok tt, (fill w (take_all room bytes l i), cnt + length bytes)))
            ∙ sym (put_bytes-fits bytes w cnt (cnt + length bytes) l (omega arith))
        | inr over ↦
            let l : room < length bytes = ground arith in
            let m : min room (length bytes) ≡ room = omega arith in
            let stored = fill w (take room bytes) in
            let r' = block_encode_sync api errs slice_reader fuel stored in
            let e = room-block_encode_sync api errs slice_reader fuel stored in
            let k = block_encode_sync-Keeps api errs slice_reader fuel stored in
            let f = pipes.capacity_filled w.rd_buf (take room bytes) in
            let d = length-drop room bytes in
            write_loop-suc rounds bytes w cnt (omega arith)
            ∙ (λ i. round (over i) (write_loop api errs slice_reader rounds fuel) (m i) bytes w cnt)
            ∙ next-same (cnt + room) _ _ r' (
                write_loop-put_bytes rounds (drop room bytes) r'.1 (cnt + room) (omega arith)
                  (omega arith) (omega arith))
            ∙ sym (put_bytes-over bytes w cnt l c)
      ]
