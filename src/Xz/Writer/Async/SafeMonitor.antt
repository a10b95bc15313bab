-- ===== src/Xz/Writer/Async/SafeMonitor.antt =====
-- A step of the routine `monitor`, and of the worker pool's, keeps the state safe.
use goxz.Base.{ℕ, ◌≡◌, if◌then◌else◌, false, refl, Bool-cases, List, [], ◌∷◌, inl, inr, subst}
use goxz.Errs.{Errs}
use goxz.Go.{Fault, message, Res, ok, fail}
use goxz.Xz.Pool.{set_capacity, close, terminate}
use goxz.Xz.WorkerPool
use goxz.Xz.WorkerPool.{elem}
use goxz.Xz.WorkerPool.Invariant.{IsSound, set_capacity-keeps, terminate-IsSound}
use goxz.Xz.Writer.Async.{
  AsyncApi, bufpipe_of, Task, scale_in, scale_out, scale_work, await_done, end_work, end_out,
  end_in, GroupAt, starting, queued, woken, returned, over, World,
}
use goxz.Xz.Writer.Async.Calm.{close-Calm, set_capacity-Calm, terminate-Calm}
use goxz.Xz.Writer.Async.Flow.{Flow-Calm_in, Flow-Calm_out}
use goxz.Xz.Writer.Async.FlowWorkers.{Flow-start}
use goxz.Xz.Writer.Async.Routines
use goxz.Xz.Writer.Async.Routines.{get_worker, set_worker}
use goxz.Xz.Writer.Async.Safe.{Safe, Sound-in, Sound-out}
use goxz.Xz.Writer.Async.SafeWorkers.{Stays}

module _ (api : AsyncApi) (errs : Errs) (slice_reader : List ℕ → api.stream_api.Reader) (fuel : ℕ)
    (Q : Fault → Type 0) where
  open api use {writer_api, pipes, stream_api}

  scaled-Kept :
      (s : World api errs) (r : Res WorkerPool.WorkerPool)
      → ((wp : WorkerPool.WorkerPool) × (r ≡ ok wp) × IsSound wp)
      → Safe api errs s
      → Stays api errs slice_reader fuel Q (Routines.scaled api errs s r)
  unfolding Routines.scaled
  scaled-Kept s (fail f) (wp, e, x) v = absurd (cc)
  scaled-Kept s (ok wq) (wp, e, x) v = record {
    flow = Flow-start s.idx _ s.in_pool s.out_pool s.workers v.flow;
    work = subst IsSound (cc) x;
    asks = v.asks;
    sends = v.sends;
  }

  task_step-Kept :
      (t : Task) (s : World api errs)
      → Safe api errs s
      → Stays api errs slice_reader fuel Q (Routines.task_step api errs t s)
  unfolding Routines.task_step set_capacity terminate
  task_step-Kept (scale_in cnt) s v =
      Sound-in v (
        Flow-Calm_in s.idx s.in_pool _ s.out_pool s.workers (set_capacity-Calm s.in_pool cnt)
          v.flow)
  task_step-Kept (scale_out cnt) s v =
      Sound-out v
        (Flow-Calm_out s.idx s.in_pool s.out_pool _ s.workers (set_capacity-Calm s.out_pool cnt)
          v.flow)
        refl (λ i. refl)
  task_step-Kept (scale_work cnt) s v =
      scaled-Kept s _ (set_capacity-keeps cnt s.work_pool v.work) v
  task_step-Kept await_done s v = elim (Bool-cases s.done) [ inl t ↦ simp t v | inr t ↦ simp t tt ]
  task_step-Kept end_work s v =
      let (wp, e, _, _, x) = terminate-IsSound s.work_pool v.work in scaled-Kept s _ (wp, e, x) v
  task_step-Kept end_out s v =
      let calm = terminate-Calm (bufpipe_of api) s.out_pool in
      Sound-out v (Flow-Calm_out s.idx s.in_pool s.out_pool _ s.workers calm v.flow) refl
        calm.active
  task_step-Kept end_in s v = Sound-in v (
      Flow-Calm_in s.idx s.in_pool _ s.out_pool s.workers
        (terminate-Calm (bufpipe_of api) s.in_pool) v.flow)

  -- A step of the routine `monitor`.
  pub monitor_step-Kept :
      (ts : List Task) (s : World api errs)
      → Safe api errs s
      → Stays api errs slice_reader fuel Q (Routines.monitor_step api errs ts s)
  unfolding Routines.monitor_step
  monitor_step-Kept [] s v = tt
  monitor_step-Kept (t ∷ ts) s v = task_step-Kept t (record s { tasks = ts }) v

  regrouped :
      (s : World api errs) (g : GroupAt) → Safe api errs s → Safe api errs (record s { group = g })
  regrouped s g v = record { flow = v.flow; work = v.work; asks = v.asks; sends = v.sends }

  drain_at-Kept :
      (g : GroupAt) (s : World api errs)
      → s.group ≡ g
      → (s.group ≡ woken → Routines.all_gone s.workers ≡ false → Q message)
      → Safe api errs s
      → Stays api errs slice_reader fuel Q (Routines.drain_at api errs g s)
  unfolding Routines.drain_at close
  drain_at-Kept starting s e q v =
      regrouped s (if Routines.all_gone s.workers then returned else queued) v
  drain_at-Kept queued s e q v = tt
  drain_at-Kept woken s e q v = elim (Bool-cases (Routines.all_gone s.workers)) [
    | inl t ↦ rw t (regrouped s returned v)
    | inr t ↦ rw t (q e t)
  ]
  drain_at-Kept returned s e q v =
      Sound-out v
        (Flow-Calm_out s.idx s.in_pool s.out_pool _ s.workers (close-Calm s.out_pool) v.flow) refl
        (λ i. refl)
  drain_at-Kept over s e q v = tt

  -- A step of the worker pool's routine.
  pub drain_step-Kept :
      (s : World api errs)
      → (s.group ≡ woken → Routines.all_gone s.workers ≡ false → Q message)
      → Safe api errs s
      → Stays api errs slice_reader fuel Q (Routines.drain_step api errs s)
  unfolding Routines.drain_step
  drain_step-Kept s q v = elim (Bool-cases s.work_pool.monitored) [
    | inl t ↦ simp t (drain_at-Kept s.group s refl q v)
    | inr t ↦ simp t tt
  ]
