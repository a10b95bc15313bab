-- ===== src/Xz/Writer/Sync/Count.antt =====
-- The count that Write returns in the block mode.
use goxz.Base.{
  ℕ, suc, ◌+◌, ◌≤◌, ◌<◌, ◌≡◌, ◌≢◌, ◌⊎◌, inl, inr, ◌∙◌, ap, arith, sym, List, [], ◌∷◌, length,
  Option, none, some,
}
use goxz.Go.{Err, Res, ok, fail, ok-inj}
use goxz.Go.Action.{next, ◌>>=◌}
use goxz.Errs.{Errs}
use goxz.Xz.Writer.Encode.{WriterApi, Writer}
use goxz.Xz.Writer.Sync.{write_blocks, recovered}
use goxz.Xz.Writer.Sync.Bytewise.{put_bytes, put_byte, store_byte, write_loop-put_bytes}

module _ (api : WriterApi) (errs : Errs) (slice_reader : List ℕ → api.stream_api.Reader)
    (fuel : ℕ) where
  open api use {pipes}

  abbrev Moved : Type 0
  Moved = Res (Unit {0}) × (Writer api errs × ℕ)

  -- All bytes are counted where nothing panics, and never more.
  abbrev Counts : ℕ → Moved → Type 0
  Counts total (ok _, s) = s.1 ≡ total
  Counts total (fail f, s) = s.1 ≤ total

  stored-Counts :
      (b : ℕ) (bs : List ℕ) (cnt total : ℕ) (r : Res (Unit {0}) × Writer api errs)
      → ((w : Writer api errs)
          → Counts total (put_bytes api errs slice_reader fuel bs (w, cnt + 1)))
      → cnt ≤ total
      → Counts total (
          next
            (λ _. put_bytes api errs slice_reader fuel bs)
            (store_byte api errs slice_reader fuel b cnt r))
  unfolding store_byte
  stored-Counts b bs cnt total (ok _, w) rest h = rest _
  stored-Counts b bs cnt total (fail f, w) rest h = h

  put_bytes-Counts :
      (bytes : List ℕ) (cnt total : ℕ) (w : Writer api errs)
      → cnt + length bytes ≡ total
      → Counts total (put_bytes api errs slice_reader fuel bytes (w, cnt))
  unfolding put_bytes put_byte ◌>>=◌
  put_bytes-Counts [] cnt total w h = omega arith
  put_bytes-Counts (b ∷ bs) cnt total w h =
      stored-Counts b bs cnt total _ (λ w'. put_bytes-Counts bs (cnt + 1) total w' (omega arith))
        (omega arith)

  -- Write's results, from the state that the loop leaves.
  abbrev answered : Moved → Res (Writer api errs × ℕ × Option Err)
  answered r = elim (recovered api errs slice_reader r) [
    | fail f ↦ fail f
    | ok done ↦ let (s, err) = done in ok (s.0, s.1, err)
  ]

  abbrev Answer : Type 0
  Answer = Writer api errs × ℕ × Option Err

  panicked :
      (m : Res Err) (s : Writer api errs × ℕ) (w' : Writer api errs) (n : ℕ) (err : Option Err)
      → ◌≡◌ {A = Res Answer}
          (elim (elim m as (λ _. Res ((Writer api errs × ℕ) × Option Err)) [
            | ok x ↦ ok (s, some x)
            | fail g ↦ fail g
          ]) [ fail f ↦ fail f | ok done ↦ let (z, x) = done in ok (z.0, z.1, x) ])
          (ok (w', n, err))
      → (s.1 ≡ n) × (err ≢ none)
  panicked (fail g) s w' n err e = absurd (ground arith)
  panicked (ok x) s w' n err e =
      let q : ◌≡◌ {A = Answer} (s.0, s.1, some x) (w', n, err) =
        ok-inj (s.0, s.1, some x) (w', n, err) e in
      let r : ◌≡◌ {A = Option Err} (some x) err = ap (λ (y : Answer). y.2) q in
      (ap (λ (y : Answer). y.1) q, λ z. absurd (cc))

  answered-Counts :
      (total : ℕ) (r : Moved) (w' : Writer api errs) (n : ℕ) (err : Option Err)
      → Counts total r
      → answered r ≡ ok (w', n, err)
      → (n ≤ total) × ((n ≡ total) ⊎ (err ≢ none))
  unfolding recovered
  answered-Counts total (ok _, s) w' n err h e =
      let q = ok-inj (s.0, s.1, none) (w', n, err) e in
      let k : s.1 ≡ n = ap (λ (x : Answer). x.1) q in (omega arith, inl (omega arith))
  answered-Counts total (fail f, s) w' n err h e =
      let (k, m) = panicked (errs.recover f) s w' n err e in (omega arith, inr m)

  -- Write in the block mode, into a pipe that is not of size 0, counts no more bytes than it is given,
  -- and returns an error where it counts fewer.
  pub write_blocks-count :
      (bytes : List ℕ) (w w' : Writer api errs) (n : ℕ) (err : Option Err)
      → 0 < pipes.capacity w.rd_buf
      → write_blocks api errs slice_reader fuel w bytes ≡ ok (w', n, err)
      → (n ≤ length bytes) × ((n ≡ length bytes) ⊎ (err ≢ none))
  unfolding write_blocks
  write_blocks-count bytes w w' n err c h =
      answered-Counts (length bytes) (put_bytes api errs slice_reader fuel bytes (w, 0)) w' n err
        (put_bytes-Counts bytes 0 (length bytes) w (omega arith))
        (ap answered (
            sym (
              write_loop-put_bytes api errs slice_reader fuel (suc (length bytes)) bytes w 0
                (omega arith) (omega arith) c))
          ∙ h)
