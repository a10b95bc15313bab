-- ===== src/Lzma/Writer.antt =====
-- lzma/writer.go: compression.
use goxz.Base.{
  ap, ◌≢◌, ◌∙◌, ◌||◌, ℕ, ◌≡◌, refl, arith, Bool, true, false, List, [], ◌∷◌, Option, none, some,
  if◌then◌else◌,
}
use goxz.Base.Int.{ℤ, pos}
use mathlib.Core.Option as Option
use goxz.Go.{eqb_err, Err, eof, closed_pipe, lib, Res, ok, ◌>>=◌, ok-of-bind}
use goxz.Errs.{Errs}
use goxz.Liblzma.{Liblzma}
use goxz.Wrapper.Container.{ContainerApi, new_stream_lzma_alone_encoder}
use goxz.Wrapper.Filter.{new_options_lzma}
use goxz.Wrapper.Stream.{Stream, process, call}
use goxz.Wrapper.Stream.Progress.{process-ne-nil}

-- `slice_reader bytes` is ioutil.NewReader of a slice.
module _ (lz : Liblzma) (api : ContainerApi) (errs : Errs)
    (slice_reader : List ℕ → api.stream_api.Reader) where
  open api use {stream_api}

  pub record AloneWriter : Type 0 where
    pub stream : Stream stream_api
    pub wr : stream_api.Writer
    pub closed : Bool

  -- Options and streams are nil where there is an error.
  pub new_writer_level : stream_api.Writer → ℤ → Option AloneWriter × Option Err
  new_writer_level wr level =
      let (opts, err) = new_options_lzma lz level in
      elim opts [
        | none ↦ (none, err)
        | some o ↦
            let (stream, err') = new_stream_lzma_alone_encoder api o in
            (Option.map (λ z. record { stream = z; wr = wr; closed = false }) stream, err')
      ]

  pub new_writer : stream_api.Writer → Option AloneWriter × Option Err
  new_writer wr = new_writer_level wr (pos lz.constants.lzma_preset_default)

  abbrev target : stream_api.Writer → Option stream_api.Writer → stream_api.Writer
  target wr none = wr
  target wr (some moved) = moved

  -- The writer, the count of the bytes that were taken, and the error.
  unfoldable pub write : ℕ → AloneWriter → List ℕ → Res (AloneWriter × ℕ × Option Err)
  write fuel w bytes =
      let run =
        process stream_api fuel stream_api.constants.lzma_run
          (call stream_api w.stream (some w.wr) (some (slice_reader bytes)))
        >>= λ (z, err). ok (
          record w { stream = z; wr = target w.wr z.dst },
          z.in_cnt,
          errs.ignore err (eof ∷ []),
        ) in
      if w.closed then ok (w, 0, some closed_pipe) else run

  -- End frees the coder when Close returns.
  unfoldable pub close : ℕ → AloneWriter → Res (AloneWriter × Option Err)
  close fuel w =
      let run =
        process stream_api fuel stream_api.constants.lzma_finish
          (call stream_api w.stream (some w.wr) none)
        >>= λ (z, err). ok (
          record w { stream = z; wr = target w.wr z.dst; closed = true },
          errs.ignore err (lib stream_api.constants.lzma_stream_end ∷ []),
        ) in
      if w.closed then ok (w, none) else run

  eqb_err-eq : (x y : Err) → eqb_err x y ≡ true → x ≡ y
  eqb_err-eq x y h = ground arith

  ignored :
      (err : Option Err) (e : Err) → err ≢ none → errs.ignore err (e ∷ []) ≡ none → err ≡ some e
  ignored none e n h = absurd (n refl)
  ignored (some x) e n h =
      let q : ◌≡◌ {A = Option Err} (if eqb_err x e || false then none else some x) none =
        rw errs.ignore_some at h in
      ap some (eqb_err-eq x e (ground arith))

  -- Where Close of an open writer returns no error, liblzma has reported the end of the stream.
  pub close-nil :
      (fuel : ℕ) (w w' : AloneWriter)
      → w.closed ≡ false
      → close fuel w ≡ ok (w', none)
      → (z : Stream stream_api) × (process stream_api fuel stream_api.constants.lzma_finish
            (call stream_api w.stream (some w.wr) none)
          ≡ ok (z, some (lib stream_api.constants.lzma_stream_end)))
        × (w'.closed ≡ true)
  unfolding close
  close-nil fuel w w' c h =
      let begun = call stream_api w.stream (some w.wr) none in
      let run = process stream_api fuel stream_api.constants.lzma_finish begun in
      let end = lib stream_api.constants.lzma_stream_end in
      let (s, p, e) = ok-of-bind run _ (rw (close, c) at h) in
      let e1 : errs.ignore s.1 (end ∷ []) ≡ none = ground arith in
      let some_err : s.1 ≢ none = λ n.
        process-ne-nil stream_api fuel stream_api.constants.lzma_finish begun s.0 refl
          (p ∙ (λ i. ok (s.0, n i))) in
      (s.0, p ∙ (λ i. ok (s.0, ignored s.1 end some_err e1 i)), ground arith)
