-- ===== src/Xz/Writer/Async/SafeWrite.antt =====
-- A round of the loop in Write keeps the state safe.
use goxz.Base.{
  ◌≢◌, sym, ℕ, ◌≡◌, refl, arith, Bool-cases, List, [], ◌∷◌, Option, none, some, Option-cases, inl,
  inr, subst,
}
use goxz.Base.Int.{pos, negsuc}
use goxz.Errs.{Errs}
use goxz.Go.{Err, Fault, bounds, Res, ok, fail}
use goxz.Xz.Pool.{Turn, waits, returns, get_writer}
use goxz.Xz.Pool.Invariant.{get_writer-Inv}
use goxz.Xz.Pool.Moves.{get_writer-Placed}
use goxz.Xz.Pool.Accepts.{get_writer-ne-fail}
use goxz.Xz.Writer.Async.{AsyncApi, bufpipe_of, SizeStats, poke, peek, set_pipe, World, Outcome}
use goxz.Xz.Writer.Async.Calls
use goxz.Xz.Writer.Async.Calm.{poke-Calm}
use goxz.Xz.Writer.Async.Flow.{Flow-Calm_in, Flow-take}
use goxz.Xz.Writer.Async.Safe.{
  Safe, Sound, Sound-in, After, IsThrown, recover-ne-fail, Res-cases, allocated-cases,
}
use goxz.Xz.Writer.New.{alloc_size}
use goxz.Xz.Writer.Sync.{is_short}

module _ (api : AsyncApi) (errs : Errs) (slice_reader : List ℕ → api.stream_api.Reader) (fuel : ℕ)
    (Q : Fault → Type 0) where
  open api use {writer_api, pipes}

  abbrev pub Kept : Outcome api errs → Type 0
  Kept = After api errs (Safe api errs) Q

  pub finish-Kept :
      (s : World api errs) (cnt : ℕ) (r : Res (Unit {0}))
      → ((f g : Fault) → r ≡ fail f → errs.recover f ≡ fail g → Q g)
      → Safe api errs s
      → Kept (Calls.finish api errs s cnt r)
  unfolding Calls.finish
  finish-Kept s cnt (ok _) h v = v
  finish-Kept s cnt (fail f) h v = elim (Res-cases (errs.recover f)) [
    | inl (e, q) ↦ rw (q, Calls.finish) v
    | inr (g, q) ↦ rw (q, Calls.finish) (h f g refl q)
  ]

  -- A call that ends with an error thrown.
  pub thrown-Kept :
      (s : World api errs) (cnt : ℕ) (r : Res (Unit {0}))
      → IsThrown r
      → Safe api errs s
      → Kept (Calls.finish api errs s cnt r)
  thrown-Kept s cnt r t v =
      finish-Kept s cnt r (λ f g e q. let (x, y) = t f e in absurd (recover-ne-fail errs x f g y q))
        v

  taken-Kept :
      (choice : ℕ) (s : World api errs) (cnt : ℕ) (t : Res (Turn (pipes.BufferPipe) SizeStats))
      → get_writer
          (bufpipe_of api)
          choice
          s.in_pool
          (pos s.idx)
          (alloc_size s.w.chunk_size)
          api.line_dual
          none
        ≡ t
      → Safe api errs s
      → Kept (Calls.taken api errs s cnt t)
  unfolding Calls.taken
  taken-Kept choice s cnt (fail f) e v = absurd (
      get_writer-ne-fail (bufpipe_of api) choice s.in_pool s.idx _ _ _ f
        (omega (arith, v.flow.fresh s.idx (omega arith))) v.flow.in_shut e)
  taken-Kept choice s cnt (ok (waits pp)) e v = tt
  taken-Kept choice s cnt (ok (returns pp none)) e v =
      elim (get_writer-Placed (bufpipe_of api) choice s.in_pool pp s.idx _ _ none {r = none} e) [
        | inl (q, _, _) ↦ subst (λ x. Sound s.idx x s.out_pool s.workers s.work_pool s.routine) q v
        | inr (_, _, (p, n, _)) ↦ absurd (cc)
      ]
  taken-Kept choice s cnt (ok (returns pp (some p))) e v =
      elim (get_writer-Placed (bufpipe_of api) choice s.in_pool pp s.idx _ _ none {r = some p} e) [
        | inl (_, n, _) ↦ absurd (cc)
        | inr (c, _, _) ↦ Sound-in v (
            Flow-take s.idx s.in_pool pp s.out_pool s.workers c
              (get_writer-Inv (bufpipe_of api) choice s.in_pool pp s.idx _ _ none {r = some p} e
                (omega (arith, v.flow.fresh s.idx (omega arith))) v.flow.in_Inv)
              v.flow)
      ]

  pub poked :
      (s : World api errs) (i : ℕ) (q : pipes.BufferPipe)
      → Safe api errs s
      → Safe api errs (record s { in_pool = poke i (set_pipe q) s.in_pool })
  poked s i q v = Sound-in v (
      Flow-Calm_in s.idx s.in_pool _ s.out_pool s.workers (poke-Calm i (set_pipe q) s.in_pool)
        v.flow)

  fed-Kept :
      (s : World api errs) (i : ℕ) (rest : List ℕ) (cnt : ℕ) (q : pipes.BufferPipe) (n : ℕ)
      (err : Option Err)
      → Safe api errs s
      → Kept (Calls.fed api errs s i rest cnt (q, n, err))
  unfolding Calls.fed Calls.close_pipe
  fed-Kept s i rest cnt q n none v = poked s i q v
  fed-Kept s i rest cnt q n (some e) v = elim (Bool-cases (is_short (some e))) [
    | inl t ↦ rw t (poked s i (pipes.close q) v)
    | inr t ↦ rw t (poked s i q v)
  ]

  -- What a panic in the making of a pipe, that Recover lets pass, comes to.
  abbrev pub MakeFails : World api errs → Type 0
  MakeFails s =
      (n : ℕ) (g : Fault)
      → s.pipe ≡ none
      → s.w.chunk_size ≡ negsuc n
      → errs.recover bounds ≡ fail g
      → Q g

  take_pipe-Kept :
      (choice : ℕ) (s : World api errs) (cnt : ℕ)
      → s.pipe ≡ none
      → MakeFails s
      → Safe api errs s
      → Kept (Calls.take_pipe api errs choice s cnt)
  unfolding Calls.take_pipe Calls.taken
  take_pipe-Kept choice s cnt e m v =
      let t =
        get_writer (bufpipe_of api) choice s.in_pool (pos s.idx) (alloc_size s.w.chunk_size)
          api.line_dual none in
      elim (allocated-cases s.w.chunk_size t) [
        | inl q ↦
            subst (λ x. Kept (Calls.taken api errs s cnt x)) (sym q)
              (taken-Kept choice s cnt t refl v)
        | inr (n, c, q) ↦
            subst (λ x. Kept (Calls.taken api errs s cnt x)) (sym q)
              (finished s cnt (λ g x. m n g e c x) v)
      ]
    where
      finished :
          (s : World api errs) (cnt : ℕ)
          → ((g : Fault) → errs.recover bounds ≡ fail g → Q g)
          → Safe api errs s
          → Kept (Calls.taken api errs s cnt (fail bounds))
      finished s cnt m v =
          finish-Kept s cnt (fail bounds)
            (λ f g h x.
              let same : f ≡ bounds = cc in m g (subst (λ y. errs.recover y ≡ fail g) same x))
            v

  pub write_round-Kept :
      (choice : ℕ) (s : World api errs) (rest : List ℕ) (cnt : ℕ)
      → (rest ≢ [] → MakeFails s)
      → Safe api errs s
      → Kept (Calls.write_round api errs choice s rest cnt)
  unfolding Calls.write_round Calls.feed
  write_round-Kept choice s [] cnt m v = finish-Kept s cnt (ok tt) (λ f g e q. absurd (cc)) v
  write_round-Kept choice s (x ∷ xs) cnt m v = elim (Option-cases s.pipe) [
    | inl n ↦ rw (n, Calls.write_round) (take_pipe-Kept choice s cnt n (m (λ h. cc)) v)
    | inr (i, n) ↦
        rw (n, Calls.write_round)
          (elim (Option-cases (peek i s.in_pool)) [
            | inl h ↦ rw (h, Calls.feed) v
            | inr (p, h) ↦ rw (h, Calls.feed) (fed-Kept s i (x ∷ xs) cnt _ _ _ v)
          ])
  ]
