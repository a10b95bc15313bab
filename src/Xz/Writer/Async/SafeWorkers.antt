-- ===== src/Xz/Writer/Async/SafeWorkers.antt =====
-- A step of a worker keeps the state safe.
use goxz.Base.{
  sym, if◌then◌else◌, ℕ, ◌≤◌, ◌≡◌, refl, arith, Bool, true, false, Bool-cases, List, Option, none,
  some, inl, inr, subst, ap, ◌||◌,
}
use goxz.Base.Int.{ℤ, pos, negsuc}
use goxz.Errs.{Errs}
use goxz.Go.{bounds, Fault, Res, ok, fail}
use goxz.Xz.PipeSet.{Pipe, find, find-some, find-none, count}
use goxz.Xz.Pool.{Turn, waits, returns, get_writer, get_reader, restore}
use goxz.Xz.Pool.Invariant.{get_writer-Inv, restore-Inv}
use goxz.Xz.Pool.Readers.{get_reader_any-cases, get_reader-Inv}
use goxz.Xz.Pool.Moves.{Passed, Restored, get_writer-Placed, Handed-cases, restore-Restored}
use goxz.Xz.Pool.Accepts.{get_writer-ne-fail, restore-ne-fail}
use goxz.Xz.WorkerPool.{elem}
use goxz.Xz.Writer.Async.{
  AsyncApi, bufpipe_of, SizeStats, allocated, poke, peek, WorkerAt, idle, gone, holding, encoding,
  restoring, World, Outcome, SizedPool,
}
use goxz.Xz.Writer.Async.Calm.{count-poke_set, poke-Calm, Still-Calm}
use goxz.Xz.Writer.Async.Flow.{Flow-Calm_in, Flow-Calm_out}
use goxz.Xz.Writer.Async.FlowWorkers.{
  Flow-move, Flow-fetch, Flow-pair, Flow-active, Flow-unpaired, Flow-give_back,
}
use goxz.Xz.Writer.Async.Held.{held_at, busy_at}
use goxz.Xz.Writer.Async.Routines
use goxz.Xz.Writer.Async.Routines.{get_worker, set_worker}
use goxz.Xz.Writer.Async.Safe.{Safe, Sound, Sound-in, Sound-out, Res-cases, allocated-cases}
use goxz.Xz.Writer.Async.SafeWrite.{Kept}
use goxz.Xz.Writer.Encode.{Pipes, block_encode}

module _ (api : AsyncApi) (errs : Errs) (slice_reader : List ℕ → api.stream_api.Reader) (fuel : ℕ)
    (Q : Fault → Type 0) where
  open api use {writer_api, pipes, stream_api}

  abbrev pub Stays : Outcome api errs → Type 0
  Stays = Kept api errs slice_reader fuel Q

  fetch-Kept :
      (choice k : ℕ) (s : World api errs) (t : Turn (pipes.BufferPipe) SizeStats)
      → get_reader choice s.in_pool (negsuc 0) ≡ t
      → get_worker k s.workers ≡ idle
      → Safe api errs s
      → Stays (Routines.fetch api errs k s t)
  unfolding Routines.fetch Routines.move held_at busy_at
  fetch-Kept choice k s (waits pp) e a v = tt
  fetch-Kept choice k s (returns pp none) e a v =
      elim (Handed-cases s.in_pool pp s.in_pool.wait_idx none
        (get_reader_any-cases choice 0 s.in_pool pp {r = none} e)).1 [
          | inl (_, c) ↦ Sound-in v (
              Flow-move s.idx k pp s.out_pool s.workers idle gone a (λ h. cc) (λ i. omega arith)
                (λ i. refl)
                (Flow-Calm_in s.idx s.in_pool pp s.out_pool s.workers
                  (Still-Calm s.in_pool pp
                    (get_reader-Inv choice (negsuc 0) s.in_pool pp {r = none} e) c)
                  v.flow))
          | inr (p, n, c) ↦ absurd (cc)
        ]
  fetch-Kept choice k s (returns pp (some p)) e a v =
      elim (Handed-cases s.in_pool pp s.in_pool.wait_idx (some p)
        (get_reader_any-cases choice 0 s.in_pool pp {r = some p} e)).1 [
          | inl (n, c) ↦ absurd (cc)
          | inr (q, n, c) ↦ Sound-in v (
              Flow-fetch s.idx k s.in_pool pp s.out_pool s.workers p a
                (subst (λ x. Passed x s.in_pool pp) (cc) c)
                (get_reader-Inv choice (negsuc 0) s.in_pool pp {r = some p} e v.flow.in_Inv) v.flow)
        ]

  pair-Kept :
      (choice k i size mode : ℕ) (s : World api errs) (ss : Option SizeStats)
      (t : Res (Turn (pipes.BufferPipe) SizeStats))
      → get_writer (bufpipe_of api) choice s.out_pool (pos i) size mode ss ≡ t
      → get_worker k s.workers ≡ holding i
      → Safe api errs s
      → Stays (Routines.pair api errs k i s t)
  unfolding Routines.pair Routines.move held_at busy_at
  pair-Kept choice k i size mode s ss (fail f) e a v = absurd (
      get_writer-ne-fail (bufpipe_of api) choice s.out_pool i size mode ss f
        (omega (arith, Flow-unpaired s.idx i k s.in_pool s.out_pool s.workers a v.flow))
        v.flow.out_shut e)
  pair-Kept choice k i size mode s ss (ok (waits pp)) e a v = tt
  pair-Kept choice k i size mode s ss (ok (returns pp none)) e a v =
      elim (get_writer-Placed (bufpipe_of api) choice s.out_pool pp i size mode ss {r = none} e) [
        | inl (q, _, _) ↦
            subst
              (λ x.
                Sound s.idx s.in_pool x (set_worker k (restoring i) s.workers) s.work_pool
                  s.routine)
              q
              (Sound-in v (
                Flow-move s.idx k s.in_pool s.out_pool s.workers (holding i) (restoring i) a
                  (λ h. cc) (λ j. ground arith) (λ j. refl) v.flow))
        | inr (_, _, (p, n, _)) ↦ absurd (cc)
      ]
  pair-Kept choice k i size mode s ss (ok (returns pp (some p))) e a v =
      elim (get_writer-Placed (bufpipe_of api) choice s.out_pool pp i size mode ss {r = some p} e) [
        | inl (_, n, _) ↦ absurd (cc)
        | inr (c, _, _) ↦
            Sound-out v
              (Flow-pair s.idx k i s.in_pool s.out_pool pp s.workers a c
                (get_writer-Inv (bufpipe_of api) choice s.out_pool pp i size mode ss {r = some p} e
                  (Flow-unpaired s.idx i k s.in_pool s.out_pool s.workers a v.flow) v.flow.out_Inv)
                v.flow)
              c.waits (λ j. ap (count j) c.active)
      ]

  after_give :
      (b : Bool) (i : ℕ)
      → (held_at i (if b then gone else idle) ≡ 0) × (busy_at i (if b then gone else idle) ≡ 0)
  unfolding held_at busy_at
  after_give true i = (refl, refl)
  after_give false i = (refl, refl)

  -- Both pipes have changed.
  pub poked :
      (i : ℕ) (s : World api errs)
      (f g : Pipe (pipes.BufferPipe) SizeStats → Pipe (pipes.BufferPipe) SizeStats)
      → Safe api errs s
      → Safe api errs (record s { in_pool = poke i f s.in_pool; out_pool = poke i g s.out_pool })
  unfolding poke
  poked i s f g v =
      Sound-out v
        (Flow-Calm_out s.idx _ s.out_pool _ s.workers (poke-Calm i g s.out_pool)
          (Flow-Calm_in s.idx s.in_pool _ s.out_pool s.workers (poke-Calm i f s.in_pool) v.flow))
        refl (λ j. count-poke_set i j g s.out_pool.active)

  encoded-Kept :
      (i : ℕ) (s : World api errs) (r : Res (ℤ × ℤ)) (ps : Pipes writer_api errs)
      → ((f g : Fault) → r ≡ fail f → errs.recover f ≡ fail g → Q g)
      → Safe api errs s
      → Stays (Routines.encoded api errs i s (r, ps))
  unfolding Routines.encoded
  encoded-Kept i s (ok sizes) ps h v = poked i s _ _ v
  encoded-Kept i s (fail f) ps h v = elim (Res-cases (errs.recover f)) [
    | inl (e, q) ↦ rw (q, Routines.encoded) (poked i s _ _ v)
    | inr (g, q) ↦ rw (q, Routines.encoded) (h f g refl q)
  ]

  -- What a panic in the encoding, that Recover lets pass, comes to.
  abbrev pub BlockFails :
      World api errs
      → Option (Pipe (pipes.BufferPipe) SizeStats)
      → Option (Pipe (pipes.BufferPipe) SizeStats)
      → Type 0
  BlockFails s pp qq =
      (p q : Pipe (pipes.BufferPipe) SizeStats) (f g : Fault)
      → pp ≡ some p
      → qq ≡ some q
      → (block_encode writer_api errs fuel s.w.flags s.w.filters s.w.chunk_size s.w.max_size
          (record { wr_buf = q.buffer_pipe; rd_buf = p.buffer_pipe })).0
        ≡ fail f
      → errs.recover f ≡ fail g
      → Q g

  encode-Kept :
      (i : ℕ) (s : World api errs) (p q : Option (Pipe (pipes.BufferPipe) SizeStats))
      → BlockFails s p q
      → Safe api errs s
      → Stays (Routines.encode api errs fuel i s p q)
  unfolding Routines.encode
  encode-Kept i s (some p) (some q) b v =
      elim (Bool-cases (
        Routines.ends api errs fuel s.w
          (record { wr_buf = q.buffer_pipe; rd_buf = p.buffer_pipe }))) [
            | inl t ↦ rw t (encoded-Kept i s _ _ (λ f g e x. b p q f g refl refl e x) v)
            | inr t ↦ rw t tt
          ]
  encode-Kept i s none none b v = v
  encode-Kept i s none (some q) b v = v
  encode-Kept i s (some p) none b v = v

  give_back-Kept :
      (k i : ℕ) (s : World api errs) (p : Pipe (pipes.BufferPipe) SizeStats)
      (t : Res (SizedPool api errs))
      → restore (bufpipe_of api) s.in_pool p ≡ t
      → get_worker k s.workers ≡ restoring i
      → 1 ≤ count i s.in_pool.active
      → p.idx ≡ i
      → Safe api errs s
      → Stays (Routines.give_back api errs k s t)
  unfolding Routines.give_back Routines.move
  give_back-Kept k i s p (fail f) e a c q v =
      absurd (restore-ne-fail (bufpipe_of api) s.in_pool p f (rw q c) e)
  give_back-Kept k i s p (ok pp) e a c q v = Sound-in v (
      Flow-give_back (bufpipe_of api) s.idx k i s.in_pool pp s.out_pool s.workers _ a
        (after_give (s.done || elem k s.work_pool.killed)) c
        (subst (λ x. Restored (bufpipe_of api) x s.in_pool pp) q
          (restore-Restored (bufpipe_of api) s.in_pool pp p e))
        (restore-Inv (bufpipe_of api) s.in_pool pp p e v.flow.in_Inv) v.flow)

  restoring-Kept :
      (k i : ℕ) (s : World api errs) (r : Option (Pipe (pipes.BufferPipe) SizeStats))
      → find i s.in_pool.active ≡ r
      → get_worker k s.workers ≡ restoring i
      → 1 ≤ count i s.in_pool.active
      → Safe api errs s
      → Stays (Routines.give_back api errs k s (Routines.restore_held api errs s.in_pool r))
  unfolding Routines.restore_held
  restoring-Kept k i s none e a c v = absurd (omega (arith, find-none i s.in_pool.active e))
  restoring-Kept k i s (some p) e a c v =
      give_back-Kept k i s p _ refl a c (find-some i s.in_pool.active e).0 v

  pair_made-Kept :
      (choice k i size mode : ℕ) (s : World api errs) (ss : Option SizeStats)
      → get_worker k s.workers ≡ holding i
      → ((n : ℕ) → s.w.max_size ≡ negsuc n → Q bounds)
      → Safe api errs s
      → Stays (
          Routines.pair api errs k i s (
            allocated s.w.max_size
              (get_writer (bufpipe_of api) choice s.out_pool (pos i) size mode ss)))
  unfolding Routines.pair
  pair_made-Kept choice k i size mode s ss a m v =
      let t = get_writer (bufpipe_of api) choice s.out_pool (pos i) size mode ss in
      elim (allocated-cases s.w.max_size t) [
        | inl q ↦
            subst (λ x. Stays (Routines.pair api errs k i s x)) (sym q)
              (pair-Kept choice k i size mode s ss t refl a v)
        | inr (n, c, q) ↦ subst (λ x. Stays (Routines.pair api errs k i s x)) (sym q) (m n c)
      ]

  -- A step of a worker.
  pub worker_step-Kept :
      (choice k : ℕ) (a : WorkerAt) (s : World api errs)
      → get_worker k s.workers ≡ a
      → ((i : ℕ)
          → get_worker k s.workers ≡ encoding i
          → BlockFails s (peek i s.in_pool) (peek i s.out_pool))
      → ((i n : ℕ) → get_worker k s.workers ≡ holding i → s.w.max_size ≡ negsuc n → Q bounds)
      → Safe api errs s
      → Stays (Routines.worker_step api errs fuel choice k a s)
  unfolding Routines.worker_step Routines.move held_at busy_at
  worker_step-Kept choice k idle s e b m v = fetch-Kept choice k s _ refl e v
  worker_step-Kept choice k gone s e b m v = tt
  worker_step-Kept choice k (holding i) s e b m v =
      pair_made-Kept choice k i _ _ s _ e (λ n c. m i n e c) v
  worker_step-Kept choice k (encoding i) s e b m v =
      encode-Kept i (Routines.move api errs k (restoring i) s) _ _ (b i e) (
        Sound-in v (
          Flow-move s.idx k s.in_pool s.out_pool s.workers (encoding i) (restoring i) e (λ h. cc)
            (λ j. omega arith) (λ j. refl) v.flow))
  worker_step-Kept choice k (restoring i) s e b m v =
      restoring-Kept k i s _ refl e
        (ground (
          arith,
          Flow-active s.idx i k s.in_pool s.out_pool s.workers (restoring i) e (λ h. cc) v.flow,
        ))
        v
