-- ===== src/Xz/Writer/Async/EntireRoutines.antt =====
-- A step of the routine `writer` loses no pipe: it takes the pipes in the order of their indices.
use goxz.Base.{ℕ, ◌≤◌, ◌≡◌, refl, ap, arith, Bool-cases, Option, none, some, inl, inr, subst}
use goxz.Base.Int.{pos, negsuc}
use goxz.Errs.{Errs}
use goxz.Go.{Err, Res, ok, fail}
use goxz.Xz.PipeSet.{Pipe, find, count, find-some}
use goxz.Xz.Pool.{Turn, waits, returns, get_reader, restore}
use goxz.Xz.Pool.Readers.{get_reader_idx-cases}
use goxz.Xz.Pool.Moves.{Passed, Handed-cases, restore-Restored, get_reader-idx}
use goxz.Xz.Writer.Async.{
  AsyncApi, bufpipe_of, SizeStats, poke, set_pipe, RoutineAt, asking, seeking, checking, ended,
  sending, giving_back, World, SizedPool,
}
use goxz.Xz.Writer.Async.Calm.{enter_reader_lem}
use goxz.Xz.Writer.Async.Entire.{given, Turned, Running, Goes}
use goxz.Xz.Writer.Async.EntireWorkers.{poked_out}
use goxz.Xz.Writer.Async.Routines
use goxz.Xz.Writer.Async.Safe.{Safe, sent_at, Res-cases}
use goxz.Xz.Writer.Async.Whole.{Whole, awake, Whole-same_out, Whole-receive, Whole-take_back}

module _ (api : AsyncApi) (errs : Errs) where
  open api use {writer_api, pipes, stream_api}

  end_routine-Goes :
      (s : World api errs) (r : Res (Unit {0})) → Goes api errs (Routines.end_routine api errs s r)
  unfolding Routines.end_routine
  end_routine-Goes s (ok _) = λ d. absurd (cc)
  end_routine-Goes s (fail f) = elim (Res-cases (errs.recover f)) [
    | inl (e, q) ↦ rw (q, Routines.end_routine) (λ d. absurd (cc))
    | inr (g, q) ↦ rw (q, Routines.end_routine) tt
  ]

  receive-Goes :
      (choice : ℕ) (s : World api errs) (t : Turn (pipes.BufferPipe) SizeStats)
      → get_reader choice s.out_pool (pos s.index) ≡ t
      → s.routine ≡ seeking
      → Safe api errs s
      → Running api errs s
      → Goes api errs (Routines.receive api errs s t)
  unfolding Routines.receive given sent_at
  receive-Goes choice s (waits pp) e at u v = tt
  receive-Goes choice s (returns pp none) e at u v =
      elim (Handed-cases s.out_pool pp (negsuc 0) none
        (get_reader_idx-cases choice s.index s.out_pool pp {r = none} e)).1 [
          | inl (_, c) ↦ λ d. record {
            whole =
                subst (λ n. Whole s.idx n s.in_pool pp s.workers (awake s.group))
                  (ground (arith, at))
                  (Whole-same_out (v d).whole pp (λ i. ap (count i) c.ready)
                    (λ i. ap (count i) c.active) c.closed);
            active = λ i. ground (arith, at, ap (count i) c.active, (v d).active i);
            turned = omega arith;
            bound = ground (arith, at, (v d).bound);
            staffed = (v d).staffed;
          }
          | inr (p, n, _) ↦ absurd (cc)
        ]
  receive-Goes choice s (returns pp (some p)) e at u v =
      let q = get_reader-idx choice s.index s.out_pool pp p e in
      elim (Handed-cases s.out_pool pp (negsuc 0) (some p)
        (get_reader_idx-cases choice s.index s.out_pool pp {r = some p} e)).1 [
          | inl (n, _) ↦ absurd (cc)
          | inr (p', n, c0) ↦
              let c : Passed p s.out_pool pp = subst (λ x. Passed x s.out_pool pp) (cc) c0 in
              λ d. record {
                whole =
                    subst (λ n. Whole s.idx n s.in_pool pp s.workers (awake s.group))
                      (ground (arith, at, q)) (Whole-receive (v d).whole pp p c);
                active = λ i. ground (arith, at, c.active i, (v d).active i);
                turned = omega (arith, q);
                bound = ground (arith, q, c.was, u.flow.fresh p.idx);
                staffed = (v d).staffed;
              }
        ]

  take_back-Goes :
      (i : ℕ) (err : Option Err) (s : World api errs) (p : Pipe (pipes.BufferPipe) SizeStats)
      (t : Res (SizedPool api errs))
      → restore (bufpipe_of api) s.out_pool p ≡ t
      → p.idx ≡ i
      → s.routine ≡ giving_back i err
      → Safe api errs s
      → Running api errs s
      → Goes api errs (Routines.take_back api errs s err t)
  unfolding Routines.take_back given sent_at
  take_back-Goes i err s p (fail f) e q at u v = tt
  take_back-Goes i err s p (ok pp) e q at u v =
      let back = restore-Restored (bufpipe_of api) s.out_pool pp p e in
      elim (Res-cases (errs.panic err)) [
        | inl (_, x) ↦
            rw (x, Routines.take_back)
              (λ d. record {
                whole =
                    subst (λ n. Whole s.idx n s.in_pool pp s.workers (awake s.group))
                      (omega (arith, q, subst (λ r. Turned r s.index) at (v d).turned))
                      (Whole-take_back (bufpipe_of api)
                        (subst (λ n. Whole s.idx n s.in_pool s.out_pool s.workers (awake s.group))
                          (ground (arith, at, q)) (v d).whole)
                        pp back);
                active = λ j. ground (arith, at, q, back.active j, (v d).active j);
                turned = tt;
                bound = ground (
                  arith,
                  at,
                  (v d).active i,
                  u.flow.fresh i,
                  subst (λ r. Turned r s.index) at (v d).turned,
                );
                staffed = (v d).staffed;
              })
        | inr (f, x) ↦
            rw (x, Routines.take_back) (end_routine-Goes (record s { out_pool = pp }) (fail f))
      ]

  restored-Goes :
      (i : ℕ) (err : Option Err) (s : World api errs)
      (r : Option (Pipe (pipes.BufferPipe) SizeStats))
      → find i s.out_pool.active ≡ r
      → s.routine ≡ giving_back i err
      → Safe api errs s
      → Running api errs s
      → Goes api errs
          (Routines.take_back api errs s err (Routines.restore_held api errs s.out_pool r))
  unfolding Routines.restore_held Routines.take_back
  restored-Goes i err s none e at u v = tt
  restored-Goes i err s (some p) e at u v =
      take_back-Goes i err s p _ refl (find-some i s.out_pool.active e).0 at u v

  send-Goes :
      (i : ℕ) (s : World api errs) (r : Option (Pipe (pipes.BufferPipe) SizeStats))
      → s.routine ≡ sending i
      → Running api errs s
      → Goes api errs (Routines.send api errs i s r)
  unfolding Routines.send given sent_at
  send-Goes i s none at v = tt
  send-Goes i s (some p) at v = elim (Bool-cases (api.is_closed p.buffer_pipe)) [
    | inr t ↦ rw t tt
    | inl t ↦
        let w = poked_out api errs s i (set_pipe (Routines.deliver api errs p s.w).0) v in
        rw t (λ d. record {
          whole =
              subst
                (λ r.
                  Whole s.idx (given r s.index) s.in_pool
                    (poke i (set_pipe (Routines.deliver api errs p s.w).0) s.out_pool) s.workers
                    (awake s.group))
                at (w d).whole;
          active = λ j. ground (arith, at, (w d).active j);
          turned = subst (λ r. Turned r s.index) at (v d).turned;
          bound = subst (λ r. given r s.index ≤ s.idx) at (v d).bound;
          staffed = (v d).staffed;
        })
  ]

  -- A step of the routine `writer`.
  pub routine_step-Goes :
      (choice : ℕ) (rt : RoutineAt) (s : World api errs)
      → s.routine ≡ rt
      → Safe api errs s
      → Running api errs s
      → Goes api errs (Routines.routine_step api errs choice rt s)
  unfolding Routines.routine_step Routines.announce Routines.check_left given sent_at
  routine_step-Goes choice asking s at u v =
      rw (enter_reader_lem s.out_pool s.index (u.asks (λ h. cc))) (λ d. record {
        whole =
            subst
              (λ r.
                Whole s.idx (given r s.index) s.in_pool
                  (record (s.out_pool) { wait_idx = pos s.index }) s.workers (awake s.group))
              at
              (Whole-same_out (v d).whole (record (s.out_pool) { wait_idx = pos s.index })
                (λ i. refl) (λ i. refl) refl);
        active = λ i. ground (arith, at, (v d).active i);
        turned = tt;
        bound = subst (λ r. given r s.index ≤ s.idx) at (v d).bound;
        staffed = (v d).staffed;
      })
  routine_step-Goes choice seeking s at u v = receive-Goes choice s _ refl at u v
  routine_step-Goes choice (sending i) s at u v = send-Goes i s _ at v
  routine_step-Goes choice (giving_back i err) s at u v = restored-Goes i err s _ refl at u v
  routine_step-Goes choice checking s at u v = left-Goes (get_reader choice s.out_pool (negsuc 0)) s
    where
      left-Goes :
          (t : Turn (pipes.BufferPipe) SizeStats) (s : World api errs)
          → Goes api errs (Routines.check_left api errs s t)
      left-Goes (waits pp) s = tt
      left-Goes (returns pp r) s = end_routine-Goes (record s { out_pool = pp }) _
  routine_step-Goes choice ended s at u v = tt
