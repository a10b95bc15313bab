-- ===== src/Xz/Writer/Async/Safety.antt =====
-- The panics that a schedule may lead to; the pools refuse no call.
use goxz.Base.{ap, ◌∙◌, ◌++◌, ℕ, ◌≡◌, refl, arith, List, [], ◌∷◌, ◌⊎◌, inl, inr, subst}
use goxz.Base.Int.{ℤ}
use goxz.Errs.{Errs}
use goxz.Go.{Fault}
use goxz.Xz.PipeSet.{count}
use goxz.Xz.Pool.{new_pipe_pool}
use goxz.Xz.Pool.Steps.{new_pipe_pool-Inv}
use goxz.Xz.WorkerPool.Invariant.{new_worker_pool-IsSound}
use goxz.Xz.Writer.Async.{AsyncApi, bufpipe_of, World, Outcome, blocked, goes, crashes}
use goxz.Xz.Writer.Async.Held.{held, busy}
use goxz.Xz.Writer.Async.Run.{
  Label, write, close, monitor, drain, client, routine, worker, start_async, step, run,
}
use goxz.Xz.Writer.Async.Cause.{Cause, of_block, of_index, of_make, of_make_out, of_reuse}
use goxz.Xz.Writer.Async.Safe.{Safe, sent_at}
use goxz.Xz.Writer.Async.SafeCalls.{client_step-Kept, call_write-Kept, call_close-Kept}
use goxz.Xz.Writer.Async.SafeMonitor.{monitor_step-Kept, drain_step-Kept}
use goxz.Xz.Writer.Async.SafeRoutines.{routine_step-Kept}
use goxz.Xz.Writer.Async.SafeWorkers.{Stays, worker_step-Kept}
use goxz.Xz.Writer.Encode.{Writer}

module _ (api : AsyncApi) (errs : Errs) (slice_reader : List ℕ → api.stream_api.Reader)
    (fuel : ℕ) where
  open api use {writer_api}

  pub start_async-Safe :
      (max_workers : ℤ) (w : Writer writer_api errs)
      → Safe api errs (start_async api errs max_workers w)
  unfolding start_async new_pipe_pool sent_at count held busy
  start_async-Safe max_workers w = record {
    flow = record {
      one = λ i. omega arith;
      kept = λ i. refl;
      fresh = λ i h. omega arith;
      in_Inv = new_pipe_pool-Inv (bufpipe_of api);
      out_Inv = new_pipe_pool-Inv (bufpipe_of api);
      in_shut = λ e. absurd (cc);
      out_shut = λ e. absurd (cc);
    };
    work = new_worker_pool-IsSound;
    asks = λ h. refl;
    sends = λ i. omega arith;
  }

  pub Outcome-cases :
      (o : Outcome api errs)
      → (o ≡ blocked) ⊎ (((s : World api errs) × (o ≡ goes s)) ⊎ ((f : Fault) × (o ≡ crashes f)))
  Outcome-cases blocked = inl refl
  Outcome-cases (goes s) = inr (inl (s, refl))
  Outcome-cases (crashes f) = inr (inr (f, refl))

  pub step-Kept :
      (l : Label) (s : World api errs)
      → Safe api errs s
      → Stays api errs slice_reader fuel
          (Cause api errs slice_reader fuel s l)
          (step api errs slice_reader fuel l s)
  unfolding step
  step-Kept (write bytes) s v = call_write-Kept api errs slice_reader fuel _ bytes s.client s v
  step-Kept close s v = call_close-Kept api errs slice_reader fuel _ s.client s v
  step-Kept (client choice) s v =
      client_step-Kept api errs slice_reader fuel _ choice s.client s refl
        (λ b cnt bs at n g e c x. of_make choice n b cnt bs g at e c x)
        (λ at s' f g n e x. of_index choice s' f g at n e x) v
  step-Kept (worker k choice) s v =
      worker_step-Kept api errs slice_reader fuel _ choice k _ s refl
        (λ i at p q f g m n e x. of_block k choice i p q f g at m n e x)
        (λ i n at c. of_make_out k choice i n at c) v
  step-Kept (routine choice) s v =
      routine_step-Kept api errs slice_reader fuel _ choice s.routine s refl v
  step-Kept monitor s v = monitor_step-Kept api errs slice_reader fuel _ s.tasks s v
  step-Kept drain s v = drain_step-Kept api errs slice_reader fuel _ s of_reuse v

  -- The step that ends a run: the labels before it and after it, the state that they lead to, and
  -- the cause.
  abbrev pub Raised : List Label → World api errs → Fault → Type 0
  Raised ls s g =
      (ls1 : List Label) × (l : Label) × (ls2 : List Label) × (t : World api errs) × (ls
        ≡ ls1 ++ l ∷ ls2)
      × (run api errs slice_reader fuel ls1 s ≡ goes t)
      × Cause api errs slice_reader fuel t l g

  run-Raised :
      (ls : List Label) (s : World api errs) (g : Fault)
      → Safe api errs s
      → run api errs slice_reader fuel ls s ≡ crashes g
      → Raised ls s g
  unfolding run
  run-Raised [] s g v h = absurd (cc)
  run-Raised (l ∷ ls) s g v h =
      let shown = step-Kept l s v in
      let Q = Cause api errs slice_reader fuel s l in
      elim (Outcome-cases (step api errs slice_reader fuel l s)) [
        | inl e ↦
            let (ls1, m, ls2, t, p, r, c) = run-Raised ls s g v (rw (e, run) at h) in
            (l ∷ ls1, m, ls2, t, ap (◌∷◌ l) p, rw (e, run) r, c)
        | inr (inl (s', e)) ↦
            let safe = subst (Stays api errs slice_reader fuel Q) e shown in
            let (ls1, m, ls2, t, p, r, c) = run-Raised ls s' g safe (rw (e, run) at h) in
            (l ∷ ls1, m, ls2, t, ap (◌∷◌ l) p, rw (e, run) r, c)
        | inr (inr (f, e)) ↦
            let q : crashes f ≡ crashes g = rw (e, run) at h in
            ([], l, ls, s, refl, refl, subst (Stays api errs slice_reader fuel Q) (e ∙ q) shown)
      ]

  -- Where a schedule of the caller, the workers and the routines makes a new asynchronous writer
  -- panic, the panic is raised by a step of the schedule from a state that the steps before it lead
  -- to, and is one of four. A worker that is encoding runs blockEncode on its two pipes, and Recover
  -- lets what it throws pass; Close, with no error from the channel, writes the stream's end, the index and
  -- the footer, and Recover
  -- lets what that throws pass; Write or a worker makes a pipe of a negative size, as the chunk
  -- size of the streamed mode is; or the worker pool's routine comes back from group.Wait when new
  -- workers have been started after the last one left. So a pool never refuses a call: no index is in
  -- use twice, no pipe is given back that is not active, no second index is waited on, and no channel
  -- is closed twice.
  pub run-crashes :
      (ls : List Label) (max_workers : ℤ) (w : Writer writer_api errs) (f : Fault)
      → run api errs slice_reader fuel ls (start_async api errs max_workers w) ≡ crashes f
      → Raised ls (start_async api errs max_workers w) f
  run-crashes ls max_workers w f e = run-Raised ls _ f (start_async-Safe max_workers w) e
