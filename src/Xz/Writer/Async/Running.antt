-- ===== src/Xz/Writer/Async/Running.antt =====
-- The pipes are written in the order of their indices.
use goxz.Base.{
  ℕ, zero, suc, if◌then◌else◌, ◌+◌, ◌≤◌, ◌<◌, ◌≡◌, ◌≢◌, refl, arith, true, false, List, [], ◌∷◌,
  inl, inr, subst, sym, Bool-cases,
}
use goxz.Base.Int.{ℤ, pos, negsuc, ltb_ℤ, ◌==ℤ◌}
use goxz.Errs.{Errs}
use goxz.Xz.Const.{workers_max, chunk_stream}
use goxz.Xz.PipeSet.{count}
use goxz.Xz.Pool.{pipes as pool_pipes, new_pipe_pool}
use goxz.Xz.WorkerPool.{new_worker_pool}
use goxz.Xz.Writer.Async.{
  AsyncApi, World, goes, sending, scale_in, scale_out, scale_work, await_done, end_work, end_out,
  end_in,
}
use goxz.Xz.Writer.Async.Entire.{Running, Goes, given, Turned}
use goxz.Xz.Writer.Async.EntireCalls.{client_step-Goes, call_write-Goes, call_close-Goes}
use goxz.Xz.Writer.Async.EntireMonitor.{monitor_step-Goes, drain_step-Goes}
use goxz.Xz.Writer.Async.EntireRoutines.{routine_step-Goes}
use goxz.Xz.Writer.Async.EntireWorkers.{worker_step-Goes}
use goxz.Xz.Writer.Async.Held.{held, busy}
use goxz.Xz.Writer.Async.Routines
use goxz.Xz.Writer.Async.Run.{
  Label, write, close, monitor, drain, client, routine, worker, start_async, step, run,
}
use goxz.Xz.Writer.Async.Safe.{Safe, sent_at}
use goxz.Xz.Writer.Async.SafeWorkers.{Stays}
use goxz.Xz.Writer.Async.Safety.{start_async-Safe, step-Kept, Outcome-cases}
use goxz.Xz.Writer.Async.Staff.{gones, patient}
use goxz.Xz.Writer.Encode.{Writer}
use goxz.Xz.Writer.New.{alloc_size}
use goxz.Xz.Writer.Async.Whole.{awake}
use goxz.Xz.Writer.Async.Cause.{Cause}

module _ (api : AsyncApi) (errs : Errs) (slice_reader : List ℕ → api.stream_api.Reader)
    (fuel : ℕ) where
  open api use {writer_api, pipes}

  -- There are workers to compress.
  abbrev pub HasWorkers : ℤ → Type 0
  HasWorkers max_workers = (1 ≤ api.num_cpu) × (max_workers ≢ pos 0)

  tasks-patient :
      (c m : ℤ)
      → HasWorkers m
      → patient 0 (Routines.monitor_tasks api errs c (if ltb_ℤ m (pos 0) then workers_max else m))
        ≡ true
  unfolding Routines.monitor_tasks patient
  tasks-patient c m (n, h) = elim (Bool-cases (c ==ℤ chunk_stream)) [
    | inl t ↦ simp t refl
    | inr t ↦ simp t (counted m h)
  ]
    where
      counted :
          (m : ℤ)
          → m ≢ pos 0
          → patient 0 (
              let k = if ltb_ℤ m (pos 0) then workers_max else m in
              let cnt = if k ==ℤ workers_max then api.num_cpu else alloc_size k in
              scale_in 1
              ∷ scale_out 1
              ∷ scale_work 1
              ∷ scale_in cnt
              ∷ scale_out cnt
              ∷ scale_work cnt
              ∷ await_done
              ∷ end_work
              ∷ end_out
              ∷ end_in
              ∷ [])
            ≡ true
      counted (pos zero) h = absurd (h refl)
      counted (pos (suc n)) h = ground arith
      counted (negsuc k) h = ground (arith, n)

  pub start_async-Running :
      (max_workers : ℤ) (w : Writer writer_api errs)
      → HasWorkers max_workers
      → Running api errs (start_async api errs max_workers w)
  unfolding start_async new_pipe_pool new_worker_pool sent_at count held busy gones given awake
  start_async-Running max_workers w (n, h) = λ d. record {
    whole = record { every = λ i l m. omega arith; left = inl refl; shut = inl refl };
    active = λ i. refl;
    turned = tt;
    bound = omega arith;
    staffed = record {
      open_pool = refl;
      unkilled = refl;
      ahead = tasks-patient w.chunk_size max_workers (n, h);
      all = refl;
      started = λ e. absurd (cc);
    };
  }

  step-Goes :
      (l : Label) (s : World api errs)
      → Safe api errs s
      → Running api errs s
      → Goes api errs (step api errs slice_reader fuel l s)
  unfolding step
  step-Goes (write bytes) s u v = call_write-Goes api errs slice_reader fuel bytes s.client s v
  step-Goes close s u v = call_close-Goes api errs slice_reader fuel s.client s v
  step-Goes (client choice) s u v = client_step-Goes api errs slice_reader fuel choice s.client s v
  step-Goes (worker k choice) s u v = worker_step-Goes api errs fuel choice k _ s refl v
  step-Goes (routine choice) s u v = routine_step-Goes api errs choice s.routine s refl u v
  step-Goes monitor s u v = monitor_step-Goes api errs s.tasks s refl v
  step-Goes drain s u v = drain_step-Goes api errs s v

  pub run-Running :
      (ls : List Label) (s s' : World api errs)
      → run api errs slice_reader fuel ls s ≡ goes s'
      → Safe api errs s
      → Running api errs s
      → Safe api errs s' × Running api errs s'
  unfolding run
  run-Running [] s s' e u v =
      let same : s ≡ s' = cc in subst (λ x. Safe api errs x × Running api errs x) same (u, v)
  run-Running (l ∷ ls) s s' e u v =
      let safe = step-Kept api errs slice_reader fuel l s u in
      let runs = step-Goes l s u v in
      elim (Outcome-cases api errs slice_reader fuel (step api errs slice_reader fuel l s)) [
        | inl x ↦ run-Running ls s s' (rw (x, run) at e) u v
        | inr (inl (t, x)) ↦
            run-Running ls t s' (rw (x, run) at e)
              (subst (Stays api errs slice_reader fuel (Cause api errs slice_reader fuel s l)) x
                safe)
              (subst (Goes api errs) x runs)
        | inr (inr (f, x)) ↦ absurd (cc (rw (x, run) at e))
      ]

  -- Where the routine `writer` of a new asynchronous writer with workers, NumCPU of them at least 1,
  -- is about to write a pipe, under any schedule, and has not ended: the pipe's index is one less than
  -- the number of pipes that the routine has asked for, and any pipe of this or a later index that the
  -- caller has taken is on its way, in the ready set of the input, with a worker or in the output's
  -- pool.
  pub run-in_order :
      (ls : List Label) (max_workers : ℤ) (w : Writer writer_api errs) (s : World api errs)
      (i j : ℕ)
      → HasWorkers max_workers
      → run api errs slice_reader fuel ls (start_async api errs max_workers w) ≡ goes s
      → s.done ≡ false
      → s.routine ≡ sending i
      → i ≤ j
      → j < s.idx
      → (i + 1 ≡ s.index)
        × (1
            ≤ count j (pool_pipes s.in_pool.ready)
              + held j s.workers
              + count j (pool_pipes s.out_pool.ready)
              + count j s.out_pool.active)
  unfolding given
  run-in_order ls max_workers w s i j h e d at l m =
      let (u, v) =
        run-Running ls _ s e (start_async-Safe api errs slice_reader fuel max_workers w)
          (start_async-Running max_workers w h) in
      (
        subst (λ x. Turned x s.index) at (v d).turned,
        (v d).whole.every j (subst (λ x. given x s.index ≤ j) (sym at) l) m,
      )
