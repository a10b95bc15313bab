-- ===== src/Wrapper/Stream/Progress.antt =====
-- How Process ends.
use goxz.Base.{ℕ, zero, suc, ◌≡◌, refl, arith, false, Option, none, ◌≢◌, ◌&&◌}
use goxz.Go.{Err, Res, ok, ok-of-bind}
use goxz.Wrapper.Stream.{
  StreamApi, Stream, Next, return_err, go_on, switch_errs, fill, drain, code_slice, process_loop,
  process, is_nil,
}

module _ (api : StreamApi) where
  switch_errs-some :
      (z : Stream api) (err : Option Err) → switch_errs api z ≡ return_err err → err ≢ none
  unfolding switch_errs
  switch_errs-some z err e n = ground arith

  -- `more` is the later rounds.
  finish-some :
      (n : Next api) (z z' : Stream api) (err : Option Err) (more : Res (Stream api × Option Err))
      → switch_errs api z ≡ n
      → (more ≡ ok (z', err) → err ≢ none)
      → ◌≡◌ {A = Res (Stream api × Option Err)}
          (elim n [ return_err x ↦ ok (z, x) | go_on ↦ more ])
          (ok (z', err))
      → err ≢ none
  finish-some (return_err x) z z' err more s later e = λ n. switch_errs-some z x s (ground arith)
  finish-some go_on z z' err more s later e = later e

  process_loop-some :
      (fuel action : ℕ) (z z' : Stream api) (err : Option Err)
      → process_loop api fuel action z ≡ ok (z', err)
      → err ≢ none
  unfolding process_loop
  process_loop-some zero action z z' err e = absurd (ground arith)
  process_loop-some (suc fuel) action z z' err e =
      let (filled, _, e1) = ok-of-bind (fill api fuel z) _ e in
      let (drained, _, e2) = ok-of-bind (drain api fuel (code_slice api action filled)) _ e1 in
      finish-some (switch_errs api drained) drained z' err (process_loop api fuel action drained)
        refl (process_loop-some fuel action drained z' err) e2

  -- Process on a stream with a reader or a writer never returns a nil error.
  pub process-ne-nil :
      (fuel action : ℕ) (z z' : Stream api)
      → (is_nil z.src && is_nil z.dst) ≡ false
      → process api fuel action z ≢ ok (z', none)
  unfolding process
  process-ne-nil fuel action z z' h e = process_loop-some fuel action _ z' none (rw h at e) refl
