-- ===== src/Xz/Writer/Async/Safe.antt =====
-- The state in which no goroutine panics in the pools, and the panics that are left.
use goxz.Base.{
  ◌∙◌, ℕ, ◌≤◌, ◌≡◌, ◌≢◌, refl, arith, Bool, true, false, List, Option, none, some, ◌==◌,
  if◌then◌else◌, ◌⊎◌, inl, inr,
}
use goxz.Base.Int.{ℤ, pos, negsuc}
use goxz.Errs.{Errs}
use goxz.Go.{bounds, Err, Fault, error, Res, ok, fail}
use goxz.Xz.PipeSet.{count}
use goxz.Xz.Pool.{PipePool, Turn, waits, returns}
use goxz.Xz.WorkerPool.{WorkerPool}
use goxz.Xz.WorkerPool.Invariant.{IsSound}
use goxz.Xz.Writer.Async.{
  AsyncApi, SizeStats, allocated, WorkerAt, RoutineAt, asking, seeking, checking, ended, sending,
  giving_back, World, Outcome, blocked, goes, crashes,
}
use goxz.Xz.Writer.Async.Flow.{Flow}

-- The output pipe that the routine `writer` has.
unfoldable pub sent_at : ℕ → RoutineAt → ℕ
sent_at i asking = 0
sent_at i seeking = 0
sent_at i checking = 0
sent_at i ended = 0
sent_at i (sending j) = if j == i then 1 else 0
sent_at i (giving_back j e) = if j == i then 1 else 0

pub record Sound {P : Type 0} (idx : ℕ) (inn out : PipePool P SizeStats) (ws : List WorkerAt)
    (wp : WorkerPool) (rt : RoutineAt) : Type 0 where
  pub flow : Flow idx inn out ws
  pub work : IsSound wp
  pub asks : rt ≢ seeking → out.wait_idx ≡ negsuc 0
  pub sends : (i : ℕ) → sent_at i rt ≤ count i out.active

module _ {P : Type 0} {idx idx' : ℕ} {inn inn' out : PipePool P SizeStats} {ws ws' : List WorkerAt}
    {wp : WorkerPool} {rt : RoutineAt} (v : Sound idx inn out ws wp rt) where
  pub Sound-in : Flow idx' inn' out ws' → Sound idx' inn' out ws' wp rt
  Sound-in f = record { flow = f; work = v.work; asks = v.asks; sends = v.sends }

  pub Sound-out :
      {out' : PipePool P SizeStats}
      → Flow idx' inn' out' ws'
      → out'.wait_idx ≡ out.wait_idx
      → ((i : ℕ) → count i out'.active ≡ count i out.active)
      → Sound idx' inn' out' ws' wp rt
  Sound-out f w c = record {
    flow = f;
    work = v.work;
    asks = λ e. w ∙ v.asks e;
    sends = λ i. omega (arith, c i, v.sends i);
  }

module _ (api : AsyncApi) (errs : Errs) where
  open api use {writer_api, pipes, stream_api}

  abbrev pub Safe : World api errs → Type 0
  Safe s = Sound s.idx s.in_pool s.out_pool s.workers s.work_pool s.routine

  -- What holds after a step, and of a panic that takes the program down.
  abbrev pub After : (World api errs → Type 0) → (Fault → Type 0) → Outcome api errs → Type 0
  After P Q blocked = Unit {0}
  After P Q (goes s) = P s
  After P Q (crashes f) = Q f

-- What is thrown is an error.
abbrev pub IsThrown : {A : Type 0} → Res A → Type 0
IsThrown r = (f : Fault) → r ≡ fail f → (e : Err) × (f ≡ error e)

pub panic-IsThrown : (errs : Errs) (e : Option Err) → IsThrown (errs.panic e)
panic-IsThrown errs none f h = absurd (cc errs.panic_none)
panic-IsThrown errs (some e) f h = (e, cc (errs.panic_some e))

pub assert-IsThrown : (errs : Errs) (b : Bool) (e : Err) → IsThrown (errs.assert b (some e))
assert-IsThrown errs true e f h = absurd (cc (errs.assert_true (some e)))
assert-IsThrown errs false e f h = (e, cc (errs.assert_false e))

pub recover-ne-fail : (errs : Errs) (e : Err) (f g : Fault) → f ≡ error e → errs.recover f ≢ fail g
recover-ne-fail errs e f g h q = cc (errs.recover_error e)

pub Res-cases : {A : Type 0} (r : Res A) → ((a : A) × (r ≡ ok a)) ⊎ ((f : Fault) × (r ≡ fail f))
Res-cases (ok a) = inl (a, refl)
Res-cases (fail f) = inr (f, refl)

pub allocated-cases :
    {P : Type 0} (c : ℤ) (t : Res (Turn P SizeStats))
    → (allocated c t ≡ t) ⊎ ((n : ℕ) × (c ≡ negsuc n) × (allocated c t ≡ fail bounds))
unfolding allocated
allocated-cases (pos n) t = inl refl
allocated-cases (negsuc n) (fail f) = inl refl
allocated-cases (negsuc n) (ok (waits pp)) = inl refl
allocated-cases (negsuc n) (ok (returns pp none)) = inl refl
allocated-cases (negsuc n) (ok (returns pp (some p))) = inr (n, refl, refl)
