-- ===== src/Xz/Writer/Async/EntireCalls.antt =====
-- A step of the caller loses no pipe.
use goxz.Base.{
  sym, ℕ, ◌≡◌, refl, arith, false, Bool-cases, List, [], ◌∷◌, Option, none, some, Option-cases, ◌⊎◌,
  inl, inr, subst,
}
use goxz.Base.Int.{pos}
use goxz.Errs.{Errs}
use goxz.Go.{Err, bounds, error, Res, ok, fail}
use goxz.Xz.PipeSet.{Pipe}
use goxz.Xz.Pool.{Turn, waits, returns, get_writer, close as close_pool}
use goxz.Xz.Pool.Moves.{get_writer-Placed}
use goxz.Xz.Writer.Async.{
  AsyncApi, bufpipe_of, SizeStats, peek, ClientAt, outside, writing, failing, closing, waiting,
  World,
}
use goxz.Xz.Writer.Async.Calls
use goxz.Xz.Writer.Async.Entire.{Entire, Running, Goes, Entire-in, poked_in}
use goxz.Xz.Writer.Async.Safe.{Res-cases, allocated-cases}
use goxz.Xz.Writer.Async.Whole.{Whole-take}
use goxz.Xz.Writer.New.{alloc_size}
use goxz.Xz.Writer.Sync.{is_short, close_output}

module _ (api : AsyncApi) (errs : Errs) (slice_reader : List ℕ → api.stream_api.Reader)
    (fuel : ℕ) where
  open api use {writer_api, pipes}

  finish-Goes :
      (s : World api errs) (cnt : ℕ) (r : Res (Unit {0}))
      → Running api errs s
      → Goes api errs (Calls.finish api errs s cnt r)
  unfolding Calls.finish
  finish-Goes s cnt (ok _) v = v
  finish-Goes s cnt (fail f) v = elim (Res-cases (errs.recover f)) [
    | inl (e, q) ↦ rw (q, Calls.finish) v
    | inr (g, q) ↦ rw (q, Calls.finish) tt
  ]

  taken-Goes :
      (choice : ℕ) (s : World api errs) (cnt : ℕ) (t : Res (Turn (pipes.BufferPipe) SizeStats))
      → get_writer
          (bufpipe_of api)
          choice
          s.in_pool
          (pos s.idx)
          (alloc_size s.w.chunk_size)
          api.line_dual
          none
        ≡ t
      → Running api errs s
      → Goes api errs (Calls.taken api errs s cnt t)
  unfolding Calls.taken
  taken-Goes choice s cnt (fail f) e v = finish-Goes s cnt (fail f) v
  taken-Goes choice s cnt (ok (waits pp)) e v = tt
  taken-Goes choice s cnt (ok (returns pp none)) e v =
      elim (get_writer-Placed (bufpipe_of api) choice s.in_pool pp s.idx _ _ none {r = none} e) [
        | inl (q, _, _) ↦
            subst
              (λ x.
                s.done ≡ false
                → Entire s.idx s.index x s.out_pool s.workers s.work_pool s.routine s.tasks s.group)
              q v
        | inr (_, _, (p, n, _)) ↦ absurd (cc)
      ]
  taken-Goes choice s cnt (ok (returns pp (some p))) e v =
      elim (get_writer-Placed (bufpipe_of api) choice s.in_pool pp s.idx _ _ none {r = some p} e) [
        | inl (_, n, _) ↦ absurd (cc)
        | inr (c, o, _) ↦ λ d. record {
          whole = Whole-take (v d).whole pp c o;
          active = (v d).active;
          turned = (v d).turned;
          bound = omega (arith, (v d).bound);
          staffed = (v d).staffed;
        }
      ]

  take_pipe-Goes :
      (choice : ℕ) (s : World api errs) (cnt : ℕ)
      → Running api errs s
      → Goes api errs (Calls.take_pipe api errs choice s cnt)
  unfolding Calls.take_pipe Calls.taken
  take_pipe-Goes choice s cnt v =
      let t =
        get_writer (bufpipe_of api) choice s.in_pool (pos s.idx) (alloc_size s.w.chunk_size)
          api.line_dual none in
      elim (allocated-cases s.w.chunk_size t) [
        | inl q ↦
            subst (λ x. Goes api errs (Calls.taken api errs s cnt x)) (sym q)
              (taken-Goes choice s cnt t refl v)
        | inr (n, c, q) ↦
            subst (λ x. Goes api errs (Calls.taken api errs s cnt x)) (sym q)
              (finish-Goes s cnt (fail bounds) v)
      ]

  fed-Goes :
      (s : World api errs) (i : ℕ) (rest : List ℕ) (cnt : ℕ) (q : pipes.BufferPipe) (n : ℕ)
      (err : Option Err)
      → Running api errs s
      → Goes api errs (Calls.fed api errs s i rest cnt (q, n, err))
  unfolding Calls.fed Calls.close_pipe
  fed-Goes s i rest cnt q n none v = poked_in api errs s i _ v
  fed-Goes s i rest cnt q n (some e) v = elim (Bool-cases (is_short (some e))) [
    | inl t ↦ rw t (poked_in api errs s i _ v)
    | inr t ↦ rw t (poked_in api errs s i _ v)
  ]

  write_round-Goes :
      (choice : ℕ) (s : World api errs) (rest : List ℕ) (cnt : ℕ)
      → Running api errs s
      → Goes api errs (Calls.write_round api errs choice s rest cnt)
  unfolding Calls.write_round Calls.feed
  write_round-Goes choice s [] cnt v = finish-Goes s cnt (ok tt) v
  write_round-Goes choice s (x ∷ xs) cnt v = elim (Option-cases s.pipe) [
    | inl n ↦ rw (n, Calls.write_round) (take_pipe-Goes choice s cnt v)
    | inr (i, n) ↦
        rw (n, Calls.write_round)
          (elim (Option-cases (peek i s.in_pool)) [
            | inl m ↦ rw (m, Calls.feed) v
            | inr (p, m) ↦ rw (m, Calls.feed) (fed-Goes s i (x ∷ xs) cnt _ _ _ v)
          ])
  ]

  -- checkErr changes nothing that the pools depend on.
  check_err-keeps :
      (s : World api errs)
      → (Calls.check_err api errs s ≡ none)
        ⊎ ((s' : World api errs) × (r : Res (Unit {0})) × (Calls.check_err api errs s
              ≡ some (s', r))
            × (Running api errs s → Running api errs s'))
  unfolding Calls.check_err
  check_err-keeps s = elim (Option-cases s.last_err) [
    | inr (e, n) ↦ inr (s, fail (error e), simp (n, Calls.check_err) refl, λ v. v)
    | inl n ↦ elim (Option-cases s.err_chan) [
      | inl m ↦ inl (simp (n, m, Calls.check_err) refl)
      | inr (e, m) ↦ inr (
        record s { last_err = e; err_chan = some none },
        errs.panic e,
        simp (n, m, Calls.check_err) refl,
        λ v. v,
      )
    ]
  ]

  fail_write-Goes :
      (s : World api errs) (cnt : ℕ)
      → Running api errs s
      → Goes api errs (Calls.fail_write api errs s cnt)
  unfolding Calls.fail_write
  fail_write-Goes s cnt v = elim (check_err-keeps s) [
    | inl n ↦ rw (n, Calls.fail_write) tt
    | inr (s', r, n, h) ↦ rw (n, Calls.fail_write) (finish-Goes s' cnt _ (h v))
  ]

  end_close-Goes :
      (s : World api errs)
      → Running api errs s
      → Goes api errs (Calls.end_close api errs slice_reader fuel s)
  unfolding Calls.end_close
  end_close-Goes s v = elim (check_err-keeps s) [
    | inl n ↦ rw (n, Calls.end_close) tt
    | inr (s', fail f, n, h) ↦ rw (n, Calls.end_close) (finish-Goes s' 0 (fail f) (h v))
    | inr (s', ok _, n, h) ↦
        rw (n, Calls.end_close)
          (finish-Goes (record s' { w = (close_output writer_api errs slice_reader fuel s'.w).1 }) 0
            _ (h v))
  ]

  close_found-Running :
      (i : ℕ) (r : Option (Pipe (pipes.BufferPipe) SizeStats)) (s : World api errs)
      → Running api errs s
      → Running api errs (Calls.close_found api errs i r s)
  unfolding Calls.close_found Calls.close_pipe
  close_found-Running i none s v = v
  close_found-Running i (some p) s v = poked_in api errs s i _ v

  close_current-Running :
      (r : Option ℕ) (s : World api errs)
      → Running api errs s
      → Running api errs (Calls.close_current api errs r s)
  unfolding Calls.close_current
  close_current-Running none s v = v
  close_current-Running (some i) s v = close_found-Running i (peek i s.in_pool) s v

  pub client_step-Goes :
      (choice : ℕ) (c : ClientAt) (s : World api errs)
      → Running api errs s
      → Goes api errs (Calls.client_step api errs slice_reader fuel choice c s)
  unfolding Calls.client_step close_pool
  client_step-Goes choice outside s v = tt
  client_step-Goes choice (writing rest cnt) s v = write_round-Goes choice s rest cnt v
  client_step-Goes choice (failing cnt) s v = fail_write-Goes s cnt v
  client_step-Goes choice closing s v =
      Entire-in api errs s (close_pool s.in_pool) (λ i. refl) (λ e. refl) v
  client_step-Goes choice waiting s v = end_close-Goes s v

  pub call_write-Goes :
      (bytes : List ℕ) (c : ClientAt) (s : World api errs)
      → Running api errs s
      → Goes api errs (Calls.call_write api errs bytes c s)
  unfolding Calls.call_write
  call_write-Goes bytes outside s v = elim (Bool-cases s.w.closed) [
    | inl t ↦ simp t v
    | inr t ↦ simp t v
  ]
  call_write-Goes bytes (writing rest cnt) s v = tt
  call_write-Goes bytes (failing cnt) s v = tt
  call_write-Goes bytes closing s v = tt
  call_write-Goes bytes waiting s v = tt

  pub call_close-Goes :
      (c : ClientAt) (s : World api errs)
      → Running api errs s
      → Goes api errs (Calls.call_close api errs c s)
  unfolding Calls.call_close Calls.begin_close
  call_close-Goes outside s v = elim (Bool-cases s.w.closed) [
    | inl t ↦ simp t v
    | inr t ↦ simp t (close_current-Running s.pipe s v)
  ]
  call_close-Goes (writing rest cnt) s v = tt
  call_close-Goes (failing cnt) s v = tt
  call_close-Goes closing s v = tt
  call_close-Goes waiting s v = tt
