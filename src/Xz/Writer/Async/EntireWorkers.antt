-- ===== src/Xz/Writer/Async/EntireWorkers.antt =====
-- A step of a worker loses no pipe.
use goxz.Base.{
  ℕ, zero, suc, ◌≤◌, ◌≡◌, ◌≢◌, Bool, ◌∷◌, length, refl, ap, arith, false, ◌||◌, Bool-cases, List,
  [], Option, none, some, inl, inr, subst, sym, ◌∙◌, if◌then◌else◌,
}
use goxz.Base.Int.{ℤ, pos, negsuc}
use goxz.Errs.{Errs}
use goxz.Go.{Res, ok, fail}
use goxz.Xz.PipeSet.{Pipe, count}
use goxz.Xz.Pool.{PipePool, Turn, waits, returns, get_writer, get_reader}
use goxz.Xz.Pool.Readers.{get_reader_any-cases}
use goxz.Xz.Pool.Moves.{Passed, get_writer-Placed, Handed-cases, restore-Restored, get_reader-none}
use goxz.Xz.WorkerPool.{elem}
use goxz.Xz.Writer.Async.{
  AsyncApi, bufpipe_of, SizeStats, allocated, poke, WorkerAt, idle, gone, holding, encoding,
  restoring, World, SizedPool,
}
use goxz.Xz.Writer.Async.Calm.{count-poke_set, count-pipes-poke}
use goxz.Xz.Writer.Async.Entire.{Entire, given, Running, Goes, poked_in}
use goxz.Xz.Writer.Async.Held.{held_at, busy_at}
use goxz.Xz.Writer.Async.Routines
use goxz.Xz.Writer.Async.Routines.{get_worker, set_worker}
use goxz.Xz.Writer.Async.Safe.{Res-cases, allocated-cases}
use goxz.Xz.Writer.Async.Staff.{gone_at, Staffed-set}
use goxz.Xz.Writer.Async.Whole.{
  Whole, awake, Whole-wake, Whole-same_in, Whole-same_out, Whole-fetch, Whole-leave, Whole-move,
  Whole-pair, Whole-ne-shut,
}
use goxz.Xz.Writer.Encode.{Pipes}

restored :
    {P : Type 0} {idx n : ℕ} {inn out : PipePool P SizeStats} {ws : List WorkerAt} {aw : Bool}
    (k i : ℕ)
    → Whole idx n inn out ws aw
    → get_worker k ws ≡ restoring i
    → Whole idx n inn out (set_worker k idle ws) aw
unfolding held_at busy_at gone_at
restored k i w a = Whole-move w k (restoring i) idle a (λ x. cc) refl (λ j. refl) (λ j. omega arith)

set-length :
    (k : ℕ) (a b : WorkerAt) (ws : List WorkerAt)
    → get_worker k ws ≡ a
    → a ≢ gone
    → 1 ≤ length (set_worker k b ws)
unfolding get_worker set_worker
set-length k a b [] e h = absurd (h (cc))
set-length zero a b (c ∷ ws) e h = omega arith
set-length (suc k) a b (c ∷ ws) e h = omega arith

module _ (api : AsyncApi) (errs : Errs) where
  open api use {writer_api, pipes}

  -- A worker has moved, and only it and the input's pool have changed.
  moved :
      (k : ℕ) (a b : WorkerAt) (s : World api errs) (pp : SizedPool api errs)
      → get_worker k s.workers ≡ a
      → a ≢ gone
      → (s.done ≡ false
          → Entire s.idx s.index s.in_pool s.out_pool s.workers s.work_pool s.routine s.tasks
              s.group
          → Whole s.idx
              (given s.routine s.index)
              pp
              s.out_pool
              (set_worker k b s.workers)
              (awake s.group))
      → Running api errs s
      → Running api errs (Routines.move api errs k b (record s { in_pool = pp }))
  unfolding Routines.move
  moved k a b s pp e n f v = λ d. record {
    whole = Whole-wake s.group (set-length k a b s.workers e n) (f d (v d));
    active = (v d).active;
    turned = (v d).turned;
    bound = (v d).bound;
    staffed = Staffed-set k b s.workers s.work_pool s.tasks (v d).staffed;
  }

  fetch-Goes :
      (choice k : ℕ) (s : World api errs) (t : Turn (pipes.BufferPipe) SizeStats)
      → get_reader choice s.in_pool (negsuc 0) ≡ t
      → get_worker k s.workers ≡ idle
      → Running api errs s
      → Goes api errs (Routines.fetch api errs k s t)
  unfolding Routines.fetch
  fetch-Goes choice k s (waits pp) e a v = tt
  fetch-Goes choice k s (returns pp none) e a v =
      let (c, z) = get_reader-none choice 0 s.in_pool pp e in
      elim (Handed-cases s.in_pool pp s.in_pool.wait_idx none
        (get_reader_any-cases choice 0 s.in_pool pp {r = none} e)).1 [
          | inl (_, h) ↦
              moved k idle gone s pp a (λ h. cc)
                (λ d v'.
                  Whole-leave
                    (Whole-same_in v'.whole pp (λ i. ap (count i) h.ready) (λ x. h.closed ∙ x)) k a
                    (h.closed ∙ c) (λ i. ap (count i) h.ready ∙ z i))
                v
          | inr (p, n, _) ↦ absurd (cc)
        ]
  fetch-Goes choice k s (returns pp (some p)) e a v =
      elim (Handed-cases s.in_pool pp s.in_pool.wait_idx (some p)
        (get_reader_any-cases choice 0 s.in_pool pp {r = some p} e)).1 [
          | inl (n, _) ↦ absurd (cc)
          | inr (q, n, c) ↦
              moved k idle (holding p.idx) s pp a (λ h. cc)
                (λ d v'. Whole-fetch v'.whole k pp p a (subst (λ x. Passed x s.in_pool pp) (cc) c))
                v
        ]

  pair-Goes :
      (choice k i size mode : ℕ) (s : World api errs) (ss : Option SizeStats)
      (t : Res (Turn (pipes.BufferPipe) SizeStats))
      → get_writer (bufpipe_of api) choice s.out_pool (pos i) size mode ss ≡ t
      → get_worker k s.workers ≡ holding i
      → Running api errs s
      → Goes api errs (Routines.pair api errs k i s t)
  unfolding Routines.pair Routines.move
  pair-Goes choice k i size mode s ss (fail f) e a v = tt
  pair-Goes choice k i size mode s ss (ok (waits pp)) e a v = tt
  pair-Goes choice k i size mode s ss (ok (returns pp none)) e a v =
      elim (get_writer-Placed (bufpipe_of api) choice s.out_pool pp i size mode ss {r = none} e) [
        | inl (_, _, c) ↦ λ d. absurd (Whole-ne-shut (v d).whole k i a c)
        | inr (_, _, (p, n, _)) ↦ absurd (cc)
      ]
  pair-Goes choice k i size mode s ss (ok (returns pp (some p))) e a v =
      elim (get_writer-Placed (bufpipe_of api) choice s.out_pool pp i size mode ss {r = some p} e) [
        | inl (_, n, _) ↦ absurd (cc)
        | inr (c, o, _) ↦ λ d. record {
          whole =
              Whole-wake s.group (set-length k (holding i) (encoding i) s.workers a (λ h. cc))
                (Whole-pair (v d).whole k i pp a c o);
          active = λ j. ap (count j) c.active ∙ (v d).active j;
          turned = (v d).turned;
          bound = (v d).bound;
          staffed = Staffed-set k (encoding i) s.workers s.work_pool s.tasks (v d).staffed;
        }
      ]

  pub poked_out :
      (s : World api errs) (i : ℕ)
      (f : Pipe (pipes.BufferPipe) SizeStats → Pipe (pipes.BufferPipe) SizeStats)
      → Running api errs s
      → Running api errs (record s { out_pool = poke i f s.out_pool })
  unfolding poke
  poked_out s i f v = λ d. record {
    whole =
        Whole-same_out (v d).whole (poke i f s.out_pool) (λ j. count-pipes-poke i j f s.out_pool)
          (λ j. count-poke_set i j f s.out_pool.active) refl;
    active = λ j. count-poke_set i j f s.out_pool.active ∙ (v d).active j;
    turned = (v d).turned;
    bound = (v d).bound;
    staffed = (v d).staffed;
  }

  encoded-Goes :
      (i : ℕ) (s : World api errs) (r : Res (ℤ × ℤ)) (ps : Pipes writer_api errs)
      → Running api errs s
      → Goes api errs (Routines.encoded api errs i s (r, ps))
  unfolding Routines.encoded
  encoded-Goes i s (ok sizes) ps v =
      poked_out (record s { in_pool = _ }) i _ (poked_in api errs s i _ v)
  encoded-Goes i s (fail f) ps v = elim (Res-cases (errs.recover f)) [
    | inl (e, q) ↦
        rw (q, Routines.encoded)
          (poked_out (record s { in_pool = _ }) i _ (poked_in api errs s i _ v))
    | inr (g, q) ↦ rw (q, Routines.encoded) tt
  ]

  encode-Goes :
      (fuel i : ℕ) (s : World api errs) (p q : Option (Pipe (pipes.BufferPipe) SizeStats))
      → Running api errs s
      → Goes api errs (Routines.encode api errs fuel i s p q)
  unfolding Routines.encode
  encode-Goes fuel i s (some p) (some q) v =
      elim (Bool-cases (
        Routines.ends api errs fuel s.w
          (record { wr_buf = q.buffer_pipe; rd_buf = p.buffer_pipe }))) [
            | inl t ↦ rw t (encoded-Goes i s _ _ v)
            | inr t ↦ rw t tt
          ]
  encode-Goes fuel i s none none v = v
  encode-Goes fuel i s none (some q) v = v
  encode-Goes fuel i s (some p) none v = v

  -- A worker that gives a pipe back stays.
  give_back-Goes :
      (k i : ℕ) (s : World api errs) (p : Option (Pipe (pipes.BufferPipe) SizeStats))
      (t : Res (SizedPool api errs))
      → Routines.restore_held api errs s.in_pool p ≡ t
      → get_worker k s.workers ≡ restoring i
      → Running api errs s
      → Goes api errs (Routines.give_back api errs k s t)
  unfolding Routines.give_back Routines.restore_held elem
  give_back-Goes k i s p (fail f) e a v = tt
  give_back-Goes k i s none (ok pp) e a v = absurd (cc)
  give_back-Goes k i s (some p) (ok pp) e a v =
      let back = restore-Restored (bufpipe_of api) s.in_pool pp p e in
      let b : WorkerAt = if s.done || elem k s.work_pool.killed then gone else idle in
      moved k (restoring i) b s pp a (λ h. cc)
        (λ d v'.
          let w = Whole-same_in v'.whole pp (λ j. rw back.ready refl) (λ x. back.closed ∙ x) in
          subst
            (λ y.
              Whole s.idx (given s.routine s.index) pp s.out_pool (set_worker k y s.workers)
                (awake s.group))
            (sym (stays d v'.staffed.unkilled)) (restored k i w a))
        v
    where
      stays :
          s.done ≡ false
          → s.work_pool.killed ≡ []
          → (if s.done || elem k s.work_pool.killed then gone else idle) ≡ idle
      stays d u = simp (d, u) refl

  pair_made-Goes :
      (choice k i size mode : ℕ) (s : World api errs) (ss : Option SizeStats)
      → get_worker k s.workers ≡ holding i
      → Running api errs s
      → Goes api errs (
          Routines.pair api errs k i s (
            allocated s.w.max_size
              (get_writer (bufpipe_of api) choice s.out_pool (pos i) size mode ss)))
  unfolding Routines.pair
  pair_made-Goes choice k i size mode s ss a v =
      let t = get_writer (bufpipe_of api) choice s.out_pool (pos i) size mode ss in
      elim (allocated-cases s.w.max_size t) [
        | inl q ↦
            subst (λ x. Goes api errs (Routines.pair api errs k i s x)) (sym q)
              (pair-Goes choice k i size mode s ss t refl a v)
        | inr (n, c, q) ↦ subst (λ x. Goes api errs (Routines.pair api errs k i s x)) (sym q) tt
      ]

  -- A step of a worker.
  pub worker_step-Goes :
      (fuel choice k : ℕ) (a : WorkerAt) (s : World api errs)
      → get_worker k s.workers ≡ a
      → Running api errs s
      → Goes api errs (Routines.worker_step api errs fuel choice k a s)
  unfolding Routines.worker_step held_at busy_at gone_at
  worker_step-Goes fuel choice k idle s e v = fetch-Goes choice k s _ refl e v
  worker_step-Goes fuel choice k gone s e v = tt
  worker_step-Goes fuel choice k (holding i) s e v = pair_made-Goes choice k i _ _ s _ e v
  worker_step-Goes fuel choice k (encoding i) s e v =
      encode-Goes fuel i (Routines.move api errs k (restoring i) s) _ _ (
        moved k (encoding i) (restoring i) s s.in_pool e (λ h. cc)
          (λ d v'.
            Whole-move v'.whole k (encoding i) (restoring i) e (λ x. cc) refl (λ j. refl)
              (λ j. omega arith))
          v)
  worker_step-Goes fuel choice k (restoring i) s e v = give_back-Goes k i s _ _ refl e v
