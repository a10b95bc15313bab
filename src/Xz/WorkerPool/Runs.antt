-- ===== src/Xz/WorkerPool/Runs.antt =====
-- Any sequence of calls on a worker pool, from a new one.
use goxz.Base.{
  ℕ, ◌≡◌, refl, sym, ap, ◌∙◌, arith, true, Bool-cases, inl, inr, List, [], ◌∷◌, length, ltb,
  if◌then◌else◌,
}
use goxz.Base.Int.{pos}
use goxz.Go.{Res, ok, ◌>>=◌}
use goxz.Xz.WorkerPool.{WorkerPool, new_worker_pool, set_capacity, terminate}
use goxz.Xz.WorkerPool.Invariant.{
  IsSound, times, new_worker_pool-IsSound, set_capacity-IsSound, terminate-IsSound,
}

-- setCapacity of a count that is not negative, and terminate.
pub data Call : Type 0 where
  scale : ℕ → Call
  end : Call

unfoldable pub call : Call → WorkerPool → Res WorkerPool
call (scale cnt) wp = set_capacity (pos cnt) wp
call end wp = terminate wp

unfoldable pub run : List Call → WorkerPool → Res WorkerPool
run [] wp = ok wp
run (c ∷ cs) wp = call c wp >>= run cs

abbrev Returns : Res WorkerPool → Type 0
Returns m = (wp' : WorkerPool) × (m ≡ ok wp') × IsSound wp'

set_capacity-closed :
    (cnt : ℕ) (wp : WorkerPool) → wp.closed ≡ true → set_capacity (pos cnt) wp ≡ ok wp
unfolding set_capacity
set_capacity-closed cnt wp c = rw (set_capacity, c)

call-Returns : (c : Call) (wp : WorkerPool) → IsSound wp → Returns (call c wp)
unfolding call
call-Returns (scale cnt) wp v = elim (Bool-cases wp.closed) [
  | inl c ↦ (wp, set_capacity-closed cnt wp c, v)
  | inr o ↦ let (wp', e, _, v', _) = set_capacity-IsSound cnt wp o v in (wp', e, v')
]
call-Returns end wp v = let (wp', e, _, _, v') = terminate-IsSound wp v in (wp', e, v')

run-Returns : (cs : List Call) (wp : WorkerPool) → IsSound wp → Returns (run cs wp)
unfolding run
run-Returns [] wp v = (wp, refl, v)
run-Returns (c ∷ cs) wp v =
    let (wp1, e1, v1) = call-Returns c wp v in
    let (wp2, e2, v2) = run-Returns cs wp1 v1 in (wp2, (λ i. e1 i >>= run cs) ∙ e2, v2)

no_workers :
    (wp : WorkerPool)
    → wp.workers ≡ []
    → IsSound wp
    → (k : ℕ) → times k wp.killed ≡ (if ltb k wp.group then 1 else 0)
unfolding times
no_workers wp w v k =
    let e : times k wp.workers ≡ 0 = ap (times k) w in ground (arith, v.once k, v.counted)

scaled_to :
    (cnt : ℕ) (wp : WorkerPool)
    → IsSound wp
    → (scaled : WorkerPool) × (set_capacity (pos cnt) wp ≡ ok scaled)
      × (length scaled.workers ≡ (if wp.closed then length wp.workers else cnt))
scaled_to cnt wp v = elim (Bool-cases wp.closed) [
  | inl c ↦
      (wp, set_capacity-closed cnt wp c, ap (λ b. if b then length wp.workers else cnt) (sym c))
  | inr o ↦
      let (s, e, l, _, _) = set_capacity-IsSound cnt wp o v in
      (s, e, l ∙ ap (λ b. if b then length wp.workers else cnt) (sym o))
]

-- Whatever calls of setCapacity, of counts that are not negative, and of terminate have been made on
-- a new pool, none has panicked and no loop has run out of rounds. A setCapacity that follows leaves
-- exactly as many workers as it asks for, if the pool is open. A terminate that follows leaves none,
-- and then the channel of every worker that was ever started, and no other, has been closed, once.
pub run_sound :
    (cs : List Call) (cnt : ℕ)
    → (wp scaled ended : WorkerPool) × (run cs new_worker_pool ≡ ok wp)
      × (set_capacity (pos cnt) wp ≡ ok scaled)
      × (length scaled.workers ≡ (if wp.closed then length wp.workers else cnt))
      × (terminate wp ≡ ok ended)
      × (ended.workers ≡ [])
      × ((k : ℕ) → times k ended.killed ≡ (if ltb k ended.group then 1 else 0))
run_sound cs cnt =
    let (wp, e, v) = run-Returns cs new_worker_pool new_worker_pool-IsSound in
    let (scaled, e1, l) = scaled_to cnt wp v in
    let (ended, e2, _, w, v2) = terminate-IsSound wp v in
    (wp, scaled, ended, e, e1, l, e2, w, no_workers ended w v2)
