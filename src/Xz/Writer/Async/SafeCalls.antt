-- ===== src/Xz/Writer/Async/SafeCalls.antt =====
-- A step of the caller keeps the state safe.
use goxz.Base.{
  [], ◌∷◌, ℕ, ◌≡◌, refl, Bool-cases, List, Option, none, some, Option-cases, ◌⊎◌, inl, inr,
}
use goxz.Errs.{Errs}
use goxz.Go.{Fault, short_write, error, Res, ok, fail, ◌>>◌}
use goxz.Xz.PipeSet.{Pipe}
use goxz.Xz.Pool.{close as close_pool}
use goxz.Xz.Writer.Async.{
  AsyncApi, SizeStats, peek, ClientAt, outside, writing, failing, closing, waiting, World, Outcome,
}
use goxz.Xz.Writer.Async.Calls
use goxz.Xz.Writer.Async.Calm.{close-Calm}
use goxz.Xz.Writer.Async.Flow.{Flow-Calm_in}
use goxz.Xz.Writer.Async.Safe.{Safe, Sound-in, IsThrown, panic-IsThrown}
use goxz.Xz.Writer.Sync.{close_output}
use goxz.Xz.Writer.Async.SafeWrite.{
  Kept, MakeFails, poked, thrown-Kept, finish-Kept, write_round-Kept,
}

module _ (api : AsyncApi) (errs : Errs) (slice_reader : List ℕ → api.stream_api.Reader) (fuel : ℕ)
    (Q : Fault → Type 0) where
  open api use {writer_api, pipes}

  -- What check_err throws is an error, and it does not touch the pools.
  check_err-cases :
      (s : World api errs)
      → (Calls.check_err api errs s ≡ none)
        ⊎ ((s' : World api errs) × (r : Res (Unit {0})) × (Calls.check_err api errs s
              ≡ some (s', r))
            × IsThrown r
            × (Safe api errs s → Safe api errs s'))
  unfolding Calls.check_err
  check_err-cases s = elim (Option-cases s.last_err) [
    | inr (e, n) ↦ inr (s, fail (error e), simp (n, Calls.check_err) refl, (λ f h. (e, cc)), λ v. v)
    | inl n ↦ elim (Option-cases s.err_chan) [
      | inl m ↦ inl (simp (n, m, Calls.check_err) refl)
      | inr (e, m) ↦ inr (
        record s { last_err = e; err_chan = some none },
        errs.panic e,
        simp (n, m, Calls.check_err) refl,
        panic-IsThrown errs e,
        λ v. v,
      )
    ]
  ]

  fail_write-Kept :
      (s : World api errs) (cnt : ℕ)
      → Safe api errs s
      → Kept api errs slice_reader fuel Q (Calls.fail_write api errs s cnt)
  unfolding Calls.fail_write
  fail_write-Kept s cnt v = elim (check_err-cases s) [
    | inl n ↦ rw (n, Calls.fail_write) tt
    | inr (s', r, n, t, h) ↦
        rw (n, Calls.fail_write)
          (thrown-Kept api errs slice_reader fuel Q s' cnt _ (after_thrown r t) (h v))
  ]
    where
      after_thrown :
          (r : Res (Unit {0})) → IsThrown r → IsThrown (r >> errs.panic (some short_write))
      after_thrown (ok _) t f e = panic-IsThrown errs (some short_write) f e
      after_thrown (fail g) t f e = t f (cc)

  close_found-Safe :
      (i : ℕ) (r : Option (Pipe (pipes.BufferPipe) SizeStats)) (s : World api errs)
      → Safe api errs s
      → Safe api errs (Calls.close_found api errs i r s)
  unfolding Calls.close_found Calls.close_pipe
  close_found-Safe i none s v = v
  close_found-Safe i (some p) s v =
      poked api errs slice_reader fuel Q s i (pipes.close p.buffer_pipe) v

  close_current-Safe :
      (r : Option ℕ) (s : World api errs)
      → Safe api errs s
      → Safe api errs (Calls.close_current api errs r s)
  unfolding Calls.close_current
  close_current-Safe none s v = v
  close_current-Safe (some i) s v = close_found-Safe i (peek i s.in_pool) s v

  -- What a panic in the writing of the index, that Recover lets pass, comes to.
  abbrev pub IndexFails : World api errs → Type 0
  IndexFails s =
      (s' : World api errs) (f g : Fault)
      → Calls.check_err api errs s ≡ some (s', ok tt)
      → (close_output writer_api errs slice_reader fuel s'.w).0 ≡ fail f
      → errs.recover f ≡ fail g
      → Q g

  end_close-Kept :
      (s : World api errs)
      → IndexFails s
      → Safe api errs s
      → Kept api errs slice_reader fuel Q (Calls.end_close api errs slice_reader fuel s)
  unfolding Calls.end_close
  end_close-Kept s q v = elim (check_err-cases s) [
    | inl n ↦ rw (n, Calls.end_close) tt
    | inr (s', r, n, t, h) ↦ rw (n, Calls.end_close) (ended s' r n t (h v))
  ]
    where
      ended :
          (s' : World api errs) (r : Res (Unit {0}))
          → Calls.check_err api errs s ≡ some (s', r)
          → IsThrown r
          → Safe api errs s'
          → Kept api errs slice_reader fuel Q (elim r as (λ _. Outcome api errs) [
            | fail f ↦ Calls.finish api errs s' 0 (fail f)
            | ok _ ↦
                let (r1, w') = close_output writer_api errs slice_reader fuel s'.w in
                Calls.finish api errs (record s' { w = w' }) 0 r1
          ])
      ended s' (fail f) n t v' = thrown-Kept api errs slice_reader fuel Q s' 0 (fail f) t v'
      ended s' (ok _) n t v' =
          finish-Kept api errs slice_reader fuel Q
            (record s' { w = (close_output writer_api errs slice_reader fuel s'.w).1 }) 0 _
            (λ f g e x. q s' f g n e x) v'

  -- A step within a call.
  pub client_step-Kept :
      (choice : ℕ) (c : ClientAt) (s : World api errs)
      → s.client ≡ c
      → ((b cnt : ℕ) (bs : List ℕ)
          → s.client ≡ writing (b ∷ bs) cnt
          → MakeFails api errs slice_reader fuel Q s)
      → (s.client ≡ waiting → IndexFails s)
      → Safe api errs s
      → Kept api errs slice_reader fuel Q (Calls.client_step api errs slice_reader fuel choice c s)
  unfolding Calls.client_step close_pool
  client_step-Kept choice outside s at m q v = tt
  client_step-Kept choice (writing [] cnt) s at m q v =
      write_round-Kept api errs slice_reader fuel Q choice s [] cnt (λ h. absurd (h refl)) v
  client_step-Kept choice (writing (b ∷ bs) cnt) s at m q v =
      write_round-Kept api errs slice_reader fuel Q choice s (b ∷ bs) cnt (λ h. m b cnt bs at) v
  client_step-Kept choice (failing cnt) s at m q v = fail_write-Kept s cnt v
  client_step-Kept choice closing s at m q v =
      Sound-in v (Flow-Calm_in s.idx s.in_pool _ s.out_pool s.workers (close-Calm s.in_pool) v.flow)
  client_step-Kept choice waiting s at m q v = end_close-Kept s (q at) v

  -- A new call.
  pub call_write-Kept :
      (bytes : List ℕ) (c : ClientAt) (s : World api errs)
      → Safe api errs s
      → Kept api errs slice_reader fuel Q (Calls.call_write api errs bytes c s)
  unfolding Calls.call_write
  call_write-Kept bytes outside s v = elim (Bool-cases s.w.closed) [
    | inl t ↦ simp t v
    | inr t ↦ simp t v
  ]
  call_write-Kept bytes (writing rest cnt) s v = tt
  call_write-Kept bytes (failing cnt) s v = tt
  call_write-Kept bytes closing s v = tt
  call_write-Kept bytes waiting s v = tt

  pub call_close-Kept :
      (c : ClientAt) (s : World api errs)
      → Safe api errs s
      → Kept api errs slice_reader fuel Q (Calls.call_close api errs c s)
  unfolding Calls.call_close Calls.begin_close
  call_close-Kept outside s v = elim (Bool-cases s.w.closed) [
    | inl t ↦ simp t v
    | inr t ↦ simp t (close_current-Safe s.pipe s v)
  ]
  call_close-Kept (writing rest cnt) s v = tt
  call_close-Kept (failing cnt) s v = tt
  call_close-Kept closing s v = tt
  call_close-Kept waiting s v = tt
