-- ===== src/Xz/Writer/Async/Complete.antt =====
-- When the routine `writer` ends without an error, it has written every pipe.
use goxz.Base.{
  ap, ℕ, ◌+◌, ◌-◌, ◌≡◌, refl, arith, true, false, List, Option, none, some, inl, inr, subst,
  Bool-cases,
}
use goxz.Base.Int.{ℤ, negsuc}
use goxz.Errs.{Errs}
use goxz.Go.{Err, lib, error, Fault, Res, ok, fail}
use goxz.Xz.PipeSet.{Pipe, count}
use goxz.Xz.Pool.{pipes as pool_pipes, Turn, waits, returns, get_reader}
use goxz.Xz.Pool.Readers.{get_reader_any-cases}
use goxz.Xz.Pool.Moves.{Handed-cases, get_reader-none}
use goxz.Xz.Writer.Async.{
  AsyncApi, SizeStats, World, Outcome, goes, asking, seeking, checking, ended, sending, giving_back,
  RoutineAt, SizedPool,
}
use goxz.Xz.Writer.Async.Entire.{Entire, Running, given, Turned}
use goxz.Xz.Writer.Async.Held.{held, held-le-busy}
use goxz.Xz.Writer.Async.Routines
use goxz.Xz.Writer.Async.Run.{Label, routine, start_async, step, run}
use goxz.Xz.Writer.Async.Running.{HasWorkers, start_async-Running, run-Running}
use goxz.Xz.Writer.Async.Safe.{After, sent_at, Res-cases, panic-IsThrown}
use goxz.Xz.Writer.Async.Safety.{start_async-Safe}
use goxz.Xz.Writer.Encode.{Writer}

module _ (api : AsyncApi) (errs : Errs) (slice_reader : List ℕ → api.stream_api.Reader) (fuel : ℕ)
    (j : ℕ) where
  open api use {writer_api, pipes}

  -- The pipes of an index that wait for a worker, are with one, or are in the output's pool.
  abbrev pub on_way : World api errs → ℕ
  on_way s =
      count j (pool_pipes s.in_pool.ready)
      + held j s.workers
      + count j (pool_pipes s.out_pool.ready)
      + count j s.out_pool.active

  -- What is known when the routine `writer` has just ended without an error.
  abbrev Clean : Outcome api errs → Type 0
  Clean =
      After api errs
        (λ s.
          s.done ≡ true
          → s.err_chan ≡ some none
          → (s.in_pool.closed ≡ true) × (s.index ≡ s.idx + 1) × (on_way s ≡ 0))
        (λ f. Unit {0})

  -- An error that is thrown goes through the channel.
  thrown-Clean :
      (s : World api errs) (f : Fault) (e : Err)
      → f ≡ error e
      → Clean (Routines.end_routine api errs s (fail f))
  unfolding Routines.end_routine
  thrown-Clean s f e h = rw (h, errs.recover_error e, Routines.end_routine) (λ d c. absurd (cc))

  -- Nothing is left when the output's pool is closed and empty.
  none_left :
      (s : World api errs)
      → s.routine ≡ checking
      → s.out_pool.closed ≡ true
      → ((i : ℕ) → count i (pool_pipes s.out_pool.ready) ≡ 0)
      → Entire s.idx s.index s.in_pool s.out_pool s.workers s.work_pool s.routine s.tasks s.group
      → (s.in_pool.closed ≡ true) × (s.index ≡ s.idx + 1) × (on_way s ≡ 0)
  unfolding given sent_at
  none_left s at c z v = elim v.whole.shut [
    | inl o ↦ absurd (cc)
    | inr (d, r, b) ↦ (
      d,
      ground (
        arith,
        at,
        v.bound,
        subst (λ x. Turned x s.index) at v.turned,
        v.whole.every (s.index - 1),
        z (s.index - 1),
        r (s.index - 1),
        b (s.index - 1),
        v.active (s.index - 1),
        held-le-busy (s.index - 1) s.workers,
      ),
      ground (arith, at, z j, r j, b j, v.active j, held-le-busy j s.workers),
    )
  ]

  check_left-Clean :
      (choice : ℕ) (s : World api errs) (t : Turn (pipes.BufferPipe) SizeStats)
      → get_reader choice s.out_pool (negsuc 0) ≡ t
      → s.routine ≡ checking
      → s.done ≡ false
      → Running api errs s
      → Clean (Routines.check_left api errs s t)
  unfolding Routines.check_left Routines.end_routine
  check_left-Clean choice s (waits pp) e at d v = tt
  check_left-Clean choice s (returns pp (some p)) e at d v =
      rw (errs.assert_false (lib api.stream_api.constants.lzma_data_error))
        (thrown-Clean (record s { out_pool = pp }) _ _ refl)
  check_left-Clean choice s (returns pp none) e at d v =
      let (c, z) = get_reader-none choice 0 s.out_pool pp e in
      rw (errs.assert_true (some (lib api.stream_api.constants.lzma_data_error))) (λ x y.
        let (shut, all, none_on_way) = none_left s at c z (v d) in
        (
          shut,
          all,
          elim (Handed-cases s.out_pool pp s.out_pool.wait_idx none
              (get_reader_any-cases choice 0 s.out_pool pp {r = none} e)).1 [
                | inl (_, h) ↦
                    omega (arith, none_on_way, ap (count j) h.ready, ap (count j) h.active)
                | inr (p, n, _) ↦ absurd (cc)
              ],
        ))

  take_back-Clean :
      (s : World api errs) (err : Option Err) (t : Res (SizedPool api errs))
      → s.done ≡ false
      → Clean (Routines.take_back api errs s err t)
  unfolding Routines.take_back
  take_back-Clean s err (fail f) d = tt
  take_back-Clean s err (ok pp) d = elim (Res-cases (errs.panic err)) [
    | inl (_, q) ↦ rw (q, Routines.take_back) (λ x y. absurd (cc))
    | inr (f, q) ↦
        let (e, h) = panic-IsThrown errs err f q in
        rw (q, Routines.take_back) (thrown-Clean (record s { out_pool = pp }) f e h)
  ]

  receive-Clean :
      (s : World api errs) (t : Turn (pipes.BufferPipe) SizeStats)
      → s.done ≡ false
      → Clean (Routines.receive api errs s t)
  unfolding Routines.receive
  receive-Clean s (waits pp) d = tt
  receive-Clean s (returns pp none) d = λ x y. absurd (cc)
  receive-Clean s (returns pp (some p)) d = λ x y. absurd (cc)

  announce-Clean :
      (s : World api errs) (r : Res (SizedPool api errs))
      → s.done ≡ false
      → Clean (Routines.announce api errs s r)
  unfolding Routines.announce
  announce-Clean s (fail f) d = tt
  announce-Clean s (ok pp) d = λ x y. absurd (cc)

  send-Clean :
      (i : ℕ) (s : World api errs) (r : Option (Pipe (pipes.BufferPipe) SizeStats))
      → s.done ≡ false
      → Clean (Routines.send api errs i s r)
  unfolding Routines.send
  send-Clean i s none d = tt
  send-Clean i s (some p) d = elim (Bool-cases (api.is_closed p.buffer_pipe)) [
    | inl t ↦ rw t (λ x y. absurd (cc))
    | inr t ↦ rw t tt
  ]

  routine_step-Clean :
      (choice : ℕ) (rt : RoutineAt) (s : World api errs)
      → s.routine ≡ rt
      → s.done ≡ false
      → Running api errs s
      → Clean (Routines.routine_step api errs choice rt s)
  unfolding Routines.routine_step
  routine_step-Clean choice asking s at d v = announce-Clean s _ d
  routine_step-Clean choice seeking s at d v = receive-Clean s _ d
  routine_step-Clean choice (sending i) s at d v = send-Clean i s _ d
  routine_step-Clean choice (giving_back i err) s at d v = take_back-Clean s err _ d
  routine_step-Clean choice checking s at d v = check_left-Clean choice s _ refl at d v
  routine_step-Clean choice ended s at d v = tt

  -- Under any schedule of a new asynchronous writer that has workers, NumCPU of them at least 1: when
  -- the routine `writer` takes the step with which it ends, and no error goes through the channel, then
  -- the input's pool is closed, the routine has asked for a pipe once more often than the caller has
  -- taken one, and no pipe of any index waits for a worker, is with one, or is left in the output's
  -- pool.
  pub run_complete :
      (ls : List Label) (max_workers : ℤ) (w : Writer writer_api errs) (s s' : World api errs)
      (choice : ℕ)
      → HasWorkers api errs slice_reader fuel max_workers
      → run api errs slice_reader fuel ls (start_async api errs max_workers w) ≡ goes s
      → step api errs slice_reader fuel (routine choice) s ≡ goes s'
      → s.done ≡ false
      → s'.done ≡ true
      → s'.err_chan ≡ some none
      → (s'.in_pool.closed ≡ true) × (s'.index ≡ s'.idx + 1) × (on_way s' ≡ 0)
  unfolding step
  run_complete ls max_workers w s s' choice h e q d d' c =
      let (u, v) =
        run-Running api errs slice_reader fuel ls _ s e
          (start_async-Safe api errs slice_reader fuel max_workers w)
          (start_async-Running api errs slice_reader fuel max_workers w h) in
      (subst Clean q (routine_step-Clean choice s.routine s refl d v)) d' c
