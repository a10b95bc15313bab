-- ===== src/Xz/Writer/Async/SafeRoutines.antt =====
-- A step of the routine `writer` keeps the state safe.
use goxz.Base.{
  ℕ, ◌≤◌, ◌≡◌, ◌≢◌, refl, arith, Bool-cases, List, Option, none, some, ◌∙◌, inl, inr, subst,
}
use goxz.Base.Int.{pos, negsuc}
use goxz.Errs.{Errs}
use goxz.Go.{Err, Fault, Res, ok, fail}
use goxz.Xz.PipeSet.{Pipe, find, find-some, find-none, count}
use goxz.Xz.Pool.{PipePool, Turn, waits, returns, get_reader, restore}
use goxz.Xz.Pool.Invariant.{restore-Inv}
use goxz.Xz.Pool.Readers.{get_reader_idx-cases, get_reader_any-cases, get_reader-Inv}
use goxz.Xz.Pool.Moves.{Passed, Handed-cases, restore-Restored}
use goxz.Xz.Pool.Accepts.{restore-ne-fail}
use goxz.Xz.WorkerPool
use goxz.Xz.WorkerPool.{elem}
use goxz.Xz.WorkerPool.Invariant.{IsSound}
use goxz.Xz.Writer.Async.{
  AsyncApi, bufpipe_of, SizeStats, poke, set_pipe, WorkerAt, RoutineAt, asking, seeking, checking,
  ended, sending, giving_back, World, SizedPool,
}
use goxz.Xz.Writer.Async.Calm.{poke-Calm, wait_idx-Calm, enter_reader_lem, Still-Calm}
use goxz.Xz.Writer.Async.Flow.{Flow, Flow-Calm_out, Flow-receive, Flow-take_back}
use goxz.Xz.Writer.Async.Routines
use goxz.Xz.Writer.Async.Routines.{get_worker, set_worker}
use goxz.Xz.Writer.Async.Safe.{
  Safe, Sound, sent_at, IsThrown, panic-IsThrown, assert-IsThrown, recover-ne-fail, Res-cases,
}
use goxz.Xz.Writer.Async.SafeWorkers.{Stays}

module _ {P : Type 0} {idx : ℕ} {inn out out' : PipePool P SizeStats} {ws : List WorkerAt}
    {wp : WorkerPool.WorkerPool} {rt rt' : RoutineAt} where
  -- The routine is at another place.
  Sound-go :
      Sound idx inn out ws wp rt
      → Flow idx inn out' ws
      → (rt' ≢ seeking → out'.wait_idx ≡ negsuc 0)
      → ((i : ℕ) → sent_at i rt' ≤ count i out'.active)
      → Sound idx inn out' ws wp rt'
  Sound-go v f n c = record { flow = f; work = v.work; asks = n; sends = c }

module _ (api : AsyncApi) (errs : Errs) (slice_reader : List ℕ → api.stream_api.Reader) (fuel : ℕ)
    (Q : Fault → Type 0) where
  open api use {writer_api, pipes, stream_api}

  end_routine-Kept :
      (s : World api errs) (r : Res (Unit {0}))
      → IsThrown r
      → Flow s.idx s.in_pool s.out_pool s.workers
      → IsSound s.work_pool
      → s.out_pool.wait_idx ≡ negsuc 0
      → Stays api errs slice_reader fuel Q (Routines.end_routine api errs s r)
  unfolding Routines.end_routine sent_at
  end_routine-Kept s (ok _) t v x w = record {
    flow = v;
    work = x;
    asks = λ h. w;
    sends = λ i. omega arith;
  }
  end_routine-Kept s (fail f) t v x w = elim (Res-cases (errs.recover f)) [
    | inl (e, q) ↦
        rw (q, Routines.end_routine)
          (record { flow = v; work = x; asks = λ h. w; sends = λ i. omega arith })
    | inr (g, q) ↦ let (y, z) = t f refl in absurd (recover-ne-fail errs y f g z q)
  ]

  receive-Kept :
      (choice : ℕ) (s : World api errs) (t : Turn (pipes.BufferPipe) SizeStats)
      → get_reader choice s.out_pool (pos s.index) ≡ t
      → Safe api errs s
      → Stays api errs slice_reader fuel Q (Routines.receive api errs s t)
  unfolding Routines.receive sent_at
  receive-Kept choice s (waits pp) e v = tt
  receive-Kept choice s (returns pp none) e v =
      let (w, cases) =
        Handed-cases s.out_pool pp (negsuc 0) none
          (get_reader_idx-cases choice s.index s.out_pool pp {r = none} e) in
      elim cases [
        | inl (_, c) ↦
            Sound-go v
              (Flow-Calm_out s.idx s.in_pool s.out_pool pp s.workers
                (Still-Calm s.out_pool pp
                  (get_reader-Inv choice (pos s.index) s.out_pool pp {r = none} e) c)
                v.flow)
              (λ h. w) (λ i. omega arith)
        | inr (p, n, c) ↦ absurd (cc)
      ]
  receive-Kept choice s (returns pp (some p)) e v =
      let (w, cases) =
        Handed-cases s.out_pool pp (negsuc 0) (some p)
          (get_reader_idx-cases choice s.index s.out_pool pp {r = some p} e) in
      elim cases [
        | inl (n, c) ↦ absurd (cc)
        | inr (q, n, c0) ↦
            let c : Passed p s.out_pool pp = subst (λ x. Passed x s.out_pool pp) (cc) c0 in
            Sound-go v
              (Flow-receive s.idx s.in_pool s.out_pool pp s.workers p c
                (get_reader-Inv choice (pos s.index) s.out_pool pp {r = some p} e v.flow.out_Inv)
                v.flow)
              (λ h. w) (λ i. ground (arith, c.active i))
      ]

  check_left-Kept :
      (choice : ℕ) (s : World api errs) (t : Turn (pipes.BufferPipe) SizeStats)
      → get_reader choice s.out_pool (negsuc 0) ≡ t
      → s.routine ≡ checking
      → Safe api errs s
      → Stays api errs slice_reader fuel Q (Routines.check_left api errs s t)
  unfolding Routines.check_left sent_at
  check_left-Kept choice s (waits pp) e at v = tt
  check_left-Kept choice s (returns pp r) e at v =
      let (w, cases) =
        Handed-cases s.out_pool pp s.out_pool.wait_idx r
          (get_reader_any-cases choice 0 s.out_pool pp {r = r} e) in
      end_routine-Kept (record s { out_pool = pp }) _ (assert-IsThrown errs _ _)
        (elim cases [
          | inl (_, c) ↦
              Flow-Calm_out s.idx s.in_pool s.out_pool pp s.workers
                (Still-Calm s.out_pool pp (get_reader-Inv choice (negsuc 0) s.out_pool pp {r = r} e)
                  c)
                v.flow
          | inr (p, _, c) ↦
              Flow-receive s.idx s.in_pool s.out_pool pp s.workers p c
                (get_reader-Inv choice (negsuc 0) s.out_pool pp {r = r} e v.flow.out_Inv) v.flow
        ])
        v.work (w ∙ v.asks (λ h. cc))

  take_back-Kept :
      (i : ℕ) (err : Option Err) (s : World api errs) (p : Pipe (pipes.BufferPipe) SizeStats)
      (t : Res (SizedPool api errs))
      → restore (bufpipe_of api) s.out_pool p ≡ t
      → s.routine ≡ giving_back i err
      → 1 ≤ count p.idx s.out_pool.active
      → Safe api errs s
      → Stays api errs slice_reader fuel Q (Routines.take_back api errs s err t)
  unfolding Routines.take_back sent_at
  take_back-Kept i err s p (fail f) e at c v =
      absurd (restore-ne-fail (bufpipe_of api) s.out_pool p f c e)
  take_back-Kept i err s p (ok pp) e at c v =
      let back = restore-Restored (bufpipe_of api) s.out_pool pp p e in
      let flow =
        Flow-take_back (bufpipe_of api) s.idx p.idx s.in_pool s.out_pool pp s.workers c back
          (restore-Inv (bufpipe_of api) s.out_pool pp p e v.flow.out_Inv) v.flow in
      let n : s.routine ≢ seeking = λ h. cc in
      elim (Res-cases (errs.panic err)) [
        | inl (_, q) ↦
            rw (q, Routines.take_back)
              (Sound-go v flow (λ h. back.waits ∙ v.asks n) (λ j. omega arith))
        | inr (f, q) ↦
            rw (q, Routines.take_back)
              (end_routine-Kept (record s { out_pool = pp }) (fail f)
                (λ g h. let (x, y) = panic-IsThrown errs err f q in (x, cc)) flow v.work
                (back.waits ∙ v.asks n))
      ]

  restoring-Kept :
      (i : ℕ) (err : Option Err) (s : World api errs)
      (r : Option (Pipe (pipes.BufferPipe) SizeStats))
      → find i s.out_pool.active ≡ r
      → s.routine ≡ giving_back i err
      → Safe api errs s
      → Stays api errs slice_reader fuel Q
          (Routines.take_back api errs s err (Routines.restore_held api errs s.out_pool r))
  unfolding Routines.restore_held sent_at
  restoring-Kept i err s none e at v =
      absurd (ground (arith, v.sends i, find-none i s.out_pool.active e))
  restoring-Kept i err s (some p) e at v =
      take_back-Kept i err s p _ refl at (let (q, c) = find-some i s.out_pool.active e in rw q c) v

  send-Kept :
      (i : ℕ) (s : World api errs) (r : Option (Pipe (pipes.BufferPipe) SizeStats))
      → s.routine ≡ sending i
      → Safe api errs s
      → Stays api errs slice_reader fuel Q (Routines.send api errs i s r)
  unfolding Routines.send sent_at poke
  send-Kept i s none at v = tt
  send-Kept i s (some p) at v = elim (Bool-cases (api.is_closed p.buffer_pipe)) [
    | inr t ↦ rw t tt
    | inl t ↦
        let calm = poke-Calm i (set_pipe (Routines.deliver api errs p s.w).0) s.out_pool in
        rw t (
          Sound-go v (Flow-Calm_out s.idx s.in_pool s.out_pool _ s.workers calm v.flow)
            (λ h. v.asks (λ q. cc)) (λ j. ground (arith, at, v.sends j, calm.active j)))
  ]

  -- A step of the routine `writer`.
  pub routine_step-Kept :
      (choice : ℕ) (rt : RoutineAt) (s : World api errs)
      → s.routine ≡ rt
      → Safe api errs s
      → Stays api errs slice_reader fuel Q (Routines.routine_step api errs choice rt s)
  unfolding Routines.routine_step Routines.announce sent_at
  routine_step-Kept choice asking s at v =
      rw (enter_reader_lem s.out_pool s.index (v.asks (λ h. cc))) (
        Sound-go v
          (Flow-Calm_out s.idx s.in_pool s.out_pool _ s.workers
            (wait_idx-Calm s.out_pool (pos s.index)) v.flow)
          (λ n. absurd (n refl)) (λ i. omega arith))
  routine_step-Kept choice seeking s at v = receive-Kept choice s _ refl v
  routine_step-Kept choice (sending i) s at v = send-Kept i s _ at v
  routine_step-Kept choice (giving_back i err) s at v = restoring-Kept i err s _ refl at v
  routine_step-Kept choice checking s at v = check_left-Kept choice s _ refl at v
  routine_step-Kept choice ended s at v = tt
