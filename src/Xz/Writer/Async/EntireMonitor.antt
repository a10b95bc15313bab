-- ===== src/Xz/Writer/Async/EntireMonitor.antt =====
-- A step of the routine `monitor`, and of the worker pool's, loses no pipe.
use goxz.Base.{
  ℕ, ◌≡◌, ◌≢◌, refl, arith, true, false, Bool-cases, List, [], ◌∷◌, length, inl, inr, subst,
}
use goxz.Base.Int.{pos}
use goxz.Errs.{Errs}
use goxz.Go.{Res, ok, fail}
use goxz.Xz.Pool.{PipePool, set_capacity, close}
use goxz.Xz.WorkerPool
use goxz.Xz.WorkerPool.Grow.{set_capacity-Grown}
use goxz.Xz.Writer.Async.{
  AsyncApi, SizeStats, WorkerAt, GroupAt, starting, queued, woken, returned, over, RoutineAt, Task,
  scale_in, scale_out, scale_work, await_done, end_work, end_out, end_in, World,
}
use goxz.Xz.Writer.Async.Entire.{Entire, given, Running, Goes, Entire-in}
use goxz.Xz.Writer.Async.Routines
use goxz.Xz.Writer.Async.Staff.{patient, Staffed-grow}
use goxz.Xz.Writer.Async.Whole.{
  Whole, awake, Whole-same_out, Whole-start, Whole-emptied, Whole-close,
}

module _ {P : Type 0} {idx index : ℕ} {inn out : PipePool P SizeStats} {ws : List WorkerAt}
    {wp : WorkerPool.WorkerPool} {rt : RoutineAt} {g : GroupAt} where
  -- A task is done that asks for no workers.
  Entire-task :
      (t : Task) (ts' : List Task)
      → Entire idx index inn out ws wp rt (t ∷ ts') g
      → ((n : ℕ) → patient n (t ∷ ts') ≡ true → patient n ts' ≡ true)
      → Entire idx index inn out ws wp rt ts' g
  Entire-task t ts' v h = record {
    whole = v.whole;
    active = v.active;
    turned = v.turned;
    bound = v.bound;
    staffed = record {
      open_pool = v.staffed.open_pool;
      unkilled = v.staffed.unkilled;
      ahead = h (length wp.workers) v.staffed.ahead;
      all = v.staffed.all;
      started = v.staffed.started;
    };
  }

  Entire-out :
      {ts : List Task}
      → Entire idx index inn out ws wp rt ts g
      → (out' : PipePool P SizeStats) → out'.ready ≡ out.ready
      → out'.active ≡ out.active
      → out'.closed ≡ out.closed
      → Entire idx index inn out' ws wp rt ts g
  Entire-out v out' r a c = record {
    whole = Whole-same_out v.whole out' (λ i. rw r refl) (λ i. rw a refl) c;
    active = λ i. rw a (v.active i);
    turned = v.turned;
    bound = v.bound;
    staffed = v.staffed;
  }

module _ (api : AsyncApi) (errs : Errs) where
  open api use {writer_api, pipes, stream_api}

  scale_work-Goes :
      (cnt : ℕ) (s : World api errs) (r : Res WorkerPool.WorkerPool) (ts : List Task)
      → WorkerPool.set_capacity (pos cnt) s.work_pool ≡ r
      → (s.done ≡ false
          → Entire s.idx s.index s.in_pool s.out_pool s.workers s.work_pool s.routine
              (scale_work cnt ∷ ts)
              s.group)
      → Goes api errs (Routines.scaled api errs (record s { tasks = ts }) r)
  unfolding Routines.scaled patient
  scale_work-Goes cnt s (fail f) ts e v = tt
  scale_work-Goes cnt s (ok wp) ts e v = λ d.
      let st = (v d).staffed in
      record {
        whole = Whole-start (v d).whole _;
        active = (v d).active;
        turned = (v d).turned;
        bound = (v d).bound;
        staffed =
            Staffed-grow cnt s.workers s.work_pool wp ts
              (set_capacity-Grown cnt s.work_pool wp st.open_pool (ground (arith, st.ahead)) e) st;
      }

  -- The end of the workers, when the routine `writer` runs no more.
  ended-Goes :
      (s : World api errs) (r : Res WorkerPool.WorkerPool)
      → s.done ≢ false
      → Goes api errs (Routines.scaled api errs s r)
  unfolding Routines.scaled
  ended-Goes s (fail f) n = tt
  ended-Goes s (ok wp) n = λ d. absurd (n d)

  task_step-Goes :
      (t : Task) (ts : List Task) (s : World api errs)
      → (s.done ≡ false
          → Entire s.idx s.index s.in_pool s.out_pool s.workers s.work_pool s.routine
              (t ∷ ts)
              s.group)
      → Goes api errs (Routines.task_step api errs t (record s { tasks = ts }))
  unfolding Routines.task_step set_capacity patient
  task_step-Goes (scale_in cnt) ts s v =
      Entire-in api errs (record s { tasks = ts }) (set_capacity s.in_pool cnt) (λ i. refl) (λ e. e)
        (λ d. Entire-task (scale_in cnt) ts (v d) (λ n e. e))
  task_step-Goes (scale_out cnt) ts s v = λ d.
      Entire-task (scale_out cnt) ts (Entire-out (v d) (set_capacity s.out_pool cnt) refl refl refl)
        (λ n e. e)
  task_step-Goes (scale_work cnt) ts s v = scale_work-Goes cnt s _ ts refl v
  task_step-Goes await_done ts s v = elim (Bool-cases s.done) [
    | inl t ↦ simp t (λ d. absurd (cc))
    | inr t ↦ simp t tt
  ]
  task_step-Goes end_work ts s v =
      ended-Goes (record s { tasks = ts }) (WorkerPool.terminate s.work_pool)
        (λ d. cc (v d).staffed.ahead)
  task_step-Goes end_out ts s v = λ d. absurd (cc (v d).staffed.ahead)
  task_step-Goes end_in ts s v = λ d. absurd (cc (v d).staffed.ahead)

  -- A step of the routine `monitor`.
  pub monitor_step-Goes :
      (ts : List Task) (s : World api errs)
      → s.tasks ≡ ts
      → Running api errs s
      → Goes api errs (Routines.monitor_step api errs ts s)
  unfolding Routines.monitor_step
  monitor_step-Goes [] s e v = tt
  monitor_step-Goes (t ∷ ts) s e v = task_step-Goes t ts s (λ d.
      subst
        (λ x. Entire s.idx s.index s.in_pool s.out_pool s.workers s.work_pool s.routine x s.group) e
        (v d))

  -- The group is elsewhere, and nothing else has changed.
  regrouped :
      (s : World api errs) (g : GroupAt)
      → (s.done ≡ false
          → Whole s.idx (given s.routine s.index) s.in_pool s.out_pool s.workers (awake g))
      → Running api errs s
      → Running api errs (record s { group = g })
  regrouped s g w v = λ d. record {
    whole = w d;
    active = (v d).active;
    turned = (v d).turned;
    bound = (v d).bound;
    staffed = (v d).staffed;
  }

  abbrev HasWhole : World api errs → GroupAt → Type 0
  HasWhole s g = Whole s.idx (given s.routine s.index) s.in_pool s.out_pool s.workers (awake g)

  drain_at-Goes :
      (g : GroupAt) (s : World api errs)
      → s.group ≡ g
      → s.work_pool.monitored ≡ true
      → Running api errs s
      → Goes api errs (Routines.drain_at api errs g s)
  unfolding Routines.drain_at awake close
  drain_at-Goes starting s at m v = elim (Bool-cases (Routines.all_gone s.workers)) [
    | inl t ↦ rw t (
        regrouped s returned
          (λ d.
            Whole-emptied (v d).whole t
              (ground (arith, m, (v d).staffed.started, (v d).staffed.all)))
          v)
    | inr t ↦ rw t (regrouped s queued (λ d. subst (HasWhole s) at (v d).whole) v)
  ]
  drain_at-Goes queued s at m v = tt
  drain_at-Goes woken s at m v = elim (Bool-cases (Routines.all_gone s.workers)) [
    | inl t ↦ rw t (regrouped s returned (λ d. subst (HasWhole s) at (v d).whole) v)
    | inr t ↦ rw t tt
  ]
  drain_at-Goes returned s at m v = λ d. record {
    whole = Whole-close (subst (HasWhole s) at (v d).whole) (close s.out_pool) refl refl refl;
    active = (v d).active;
    turned = (v d).turned;
    bound = (v d).bound;
    staffed = (v d).staffed;
  }
  drain_at-Goes over s at m v = tt

  -- A step of the worker pool's routine.
  pub drain_step-Goes :
      (s : World api errs) → Running api errs s → Goes api errs (Routines.drain_step api errs s)
  unfolding Routines.drain_step
  drain_step-Goes s v = elim (Bool-cases s.work_pool.monitored) [
    | inl t ↦ simp t (drain_at-Goes s.group s refl t v)
    | inr t ↦ simp t tt
  ]
