-- ===== src/Xz/Index/Refused.antt =====
-- The walk takes the end of the index stream for a failure.
use goxz.Base.{ℕ, zero, suc, ◌≡◌, refl, ◌∙◌, arith, true, Option, none, some, ◌≢◌}
use goxz.Base.Int.{ℤ, pos, ltb_ℤ}
use goxz.Go.{Err, Fault, stuck, Res, ok, fail, ◌>>=◌, ok-of-bind}
use goxz.Errs.{Errs}
use goxz.Wrapper.Flags.{get_backward_size}
use goxz.Wrapper.Stream.{process}
use goxz.Wrapper.Stream.Progress.{process-ne-nil}
use goxz.Xz.Index.{
  IndexApi, unroll_padding, unroll_footer, unroll_index, prev_stream_index, decode_loop,
  decode_index,
}

module _ (api : IndexApi) (errs : Errs) where
  panic-ok : (err : Option Err) (u : Unit {0}) → errs.panic err ≡ ok u → err ≡ none
  panic-ok none u e = refl
  panic-ok (some x) u e = absurd (cc (errs.panic_some x))

  -- Process always returns an error, and unrollIndex panics with any.
  unroll_index-ne-ok :
      (fuel : ℕ) (rd : api.ReaderAt) (at size : ℤ) (r : api.Index × ℤ)
      → unroll_index api errs fuel rd at size ≢ ok r
  unfolding unroll_index
  unroll_index-ne-ok fuel rd at size r e =
      let (_, _, e1) = ok-of-bind (errs.panic _) _ e in
      let (t, p, e2) = ok-of-bind (process api.stream_api fuel api.flags_api.lzma_finish _) _ e1 in
      let (u, q, _) = ok-of-bind (errs.panic t.1) _ e2 in
      process-ne-nil api.stream_api fuel api.flags_api.lzma_finish _ t.0 refl
        (p ∙ (λ i. ok (t.0, panic-ok t.1 u q i)))

  prev_stream_index-ne-ok :
      (fuel : ℕ) (rd : api.ReaderAt) (at : ℤ) (r : api.Index × ℤ)
      → prev_stream_index api errs fuel rd at ≢ ok r
  unfolding prev_stream_index
  prev_stream_index-ne-ok fuel rd at r e =
      let (p, _, e1) = ok-of-bind (unroll_padding api errs fuel rd at) _ e in
      let (f, _, e2) = ok-of-bind (unroll_footer api errs rd p.1) _ e1 in
      let (x, i, _) = ok-of-bind (unroll_index api errs fuel rd f.1 (get_backward_size f.0)) _ e2 in
      unroll_index-ne-ok fuel rd f.1 (get_backward_size f.0) x i

  recovered-ne-nil :
      (f : Fault) (index index' : Option api.Index)
      → ◌>>=◌ {B = Option api.Index × Option Err} (errs.recover f) (λ e. ok (index, some e))
        ≢ ok (index', none)
  recovered-ne-nil f index index' e =
      let (x, _, n) = ok-of-bind (errs.recover f) _ e in absurd (ground arith)

  failed_step :
      (fuel : ℕ) (rd : api.ReaderAt) (at : ℤ) (step : Res (api.Index × ℤ))
      → ltb_ℤ (pos 0) at ≡ true
      → prev_stream_index api errs fuel rd at ≡ step
      → (f : Fault) × (decode_loop api errs (suc fuel) rd at none ≡ (none, some f))
  unfolding decode_loop
  failed_step fuel rd at (ok r) h q = absurd (prev_stream_index-ne-ok fuel rd at r q)
  failed_step fuel rd at (fail f) h q = (f, rw (h, q, decode_loop))

  decode_loop-fault :
      (fuel : ℕ) (rd : api.ReaderAt) (at : ℤ)
      → ltb_ℤ (pos 0) at ≡ true
      → (f : Fault) × (decode_loop api errs fuel rd at none ≡ (none, some f))
  unfolding decode_loop
  decode_loop-fault zero rd at h = (stuck, refl)
  decode_loop-fault (suc fuel) rd at h =
      failed_step fuel rd at (prev_stream_index api errs fuel rd at) h refl

  -- decodeIndex from a position above 0 never returns without an error.
  pub decode_index-ne-nil :
      (fuel : ℕ) (rd : api.ReaderAt) (at : ℤ) (index : Option api.Index)
      → ltb_ℤ (pos 0) at ≡ true
      → decode_index api errs fuel rd at ≢ ok (index, none)
  unfolding decode_index
  decode_index-ne-nil fuel rd at index h e =
      let (f, q) = decode_loop-fault fuel rd at h in
      recovered-ne-nil f _ index (rw (decode_index, q) at e)
