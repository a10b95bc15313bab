-- ===== src/Xz/WorkerPool/Invariant.antt =====
-- Each channel is closed once at most, and the pool has the workers that it is asked for.
use goxz.Base.{
  ℕ, zero, suc, ◌+◌, ◌≤◌, ◌<◌, ◌≡◌, refl, arith, true, false, Bool-cases, inl, inr, List, [], ◌∷◌,
  length, ltb, ◌==◌, if◌then◌else◌, ap, ◌∙◌,
}
use goxz.Base.Int.{pos, ltb_ℤ}
use goxz.Go.{Res, ok, ◌>>=◌}
use goxz.Xz.WorkerPool.{
  WorkerPool, elem, close_chan, spawn, kill_last, spawn_loop, kill_loop, set_capacity,
  close_workers, terminate, new_worker_pool,
}

unfoldable pub times : ℕ → List ℕ → ℕ
times k [] = 0
times k (j ∷ js) = (if j == k then 1 else 0) + times k js

elem-times : (k : ℕ) (js : List ℕ) → times k js ≡ 0 → elem k js ≡ false
unfolding times elem
elem-times k [] h = refl
elem-times k (j ∷ js) h = ground (arith, elem-times k js)

-- A channel that has been made is a worker's or is closed, and not both; no other channel is either.
pub record IsSound (wp : WorkerPool) : Type 0 where
  pub once : (k : ℕ) → times k wp.workers + times k wp.killed ≡ (if ltb k wp.next then 1 else 0)
  pub counted : wp.group ≡ wp.next

pub new_worker_pool-IsSound : IsSound new_worker_pool
unfolding new_worker_pool times
new_worker_pool-IsSound = record { once = λ k. ground arith; counted = refl }

spawn-IsSound : (wp : WorkerPool) → IsSound wp → IsSound (spawn wp)
unfolding spawn times
spawn-IsSound wp v = record {
  once = λ k. ground (arith, v.once k);
  counted = omega (arith, v.counted);
}

close_chan_lem :
    (k : ℕ) (wp : WorkerPool)
    → times k wp.killed ≡ 0
    → close_chan k wp ≡ ok (record wp { killed = k ∷ wp.killed })
unfolding close_chan
close_chan_lem k wp h = ground (arith, elem-times k wp.killed h)

-- A call that returns a sound pool of a size, as open as it was.
abbrev Sized : ℕ → WorkerPool → Res WorkerPool → Type 0
Sized cnt wp m =
    (wp' : WorkerPool) × (m ≡ ok wp')
    × (length wp'.workers ≡ cnt)
    × IsSound wp'
    × (wp'.closed ≡ wp.closed)

spawn_loop-IsSound :
    (rounds cnt : ℕ) (wp : WorkerPool)
    → cnt ≤ rounds + length wp.workers
    → IsSound wp
    → (wp' : WorkerPool) × (spawn_loop rounds (pos cnt) wp ≡ ok wp')
      × (cnt ≤ length wp'.workers)
      × IsSound wp'
      × (wp'.closed ≡ wp.closed)
unfolding spawn_loop spawn
spawn_loop-IsSound zero cnt wp h v = (wp, ground arith, omega arith, v, refl)
spawn_loop-IsSound (suc rounds) cnt wp h v =
    elim (Bool-cases (ltb_ℤ (pos (length wp.workers)) (pos cnt))) [
      | inl more ↦
          let (wp', e, l, v', c) =
            spawn_loop-IsSound rounds cnt (spawn wp) (omega arith) (spawn-IsSound wp v) in
          (
            wp',
            (λ i. if more i then spawn_loop rounds (pos cnt) (spawn wp) else ok wp) ∙ e,
            l,
            v',
            c,
          )
      | inr enough ↦ (
        wp,
        (λ i. if enough i then spawn_loop rounds (pos cnt) (spawn wp) else ok wp),
        ground arith,
        v,
        refl,
      )
    ]

-- A worker's channel is not closed yet.
kill_last-IsSound :
    (k : ℕ) (ks : List ℕ) (wp : WorkerPool)
    → wp.workers ≡ k ∷ ks
    → IsSound wp
    → (kill_last (k ∷ ks) wp ≡ ok (record wp { workers = ks; killed = k ∷ wp.killed }))
      × IsSound (record wp { workers = ks; killed = k ∷ wp.killed })
unfolding kill_last times
kill_last-IsSound k ks wp h v =
    let w : (j : ℕ) → times j wp.workers ≡ (if k == j then 1 else 0) + times j ks =
      λ j. ap (times j) h in
    (
      close_chan_lem k (record wp { workers = ks }) (ground (arith, w k, v.once k)),
      record { once = λ j. ground (arith, w j, v.once j); counted = v.counted },
    )

kill_stop :
    (rounds cnt : ℕ) (wp : WorkerPool)
    → ltb_ℤ (pos cnt) (pos (length wp.workers)) ≡ false
    → length wp.workers ≡ cnt
    → IsSound wp
    → Sized cnt wp (kill_loop (suc rounds) (pos cnt) wp)
unfolding kill_loop
kill_stop rounds cnt wp done n v = (
  wp,
  (λ i. if done i then (kill_last wp.workers wp >>= kill_loop rounds (pos cnt)) else ok wp),
  n,
  v,
  refl,
)

kill_round :
    (rounds cnt : ℕ) (wp : WorkerPool) (ks : List ℕ)
    → wp.workers ≡ ks
    → length ks < suc rounds
    → cnt ≤ length ks
    → IsSound wp
    → ((wp' : WorkerPool)
        → length wp'.workers < rounds
        → cnt ≤ length wp'.workers
        → IsSound wp'
        → Sized cnt wp' (kill_loop rounds (pos cnt) wp'))
    → Sized cnt wp (kill_loop (suc rounds) (pos cnt) wp)
unfolding kill_loop
kill_round rounds cnt wp [] e h l v more =
    let n : length wp.workers ≡ 0 = ap length e in
    kill_stop rounds cnt wp (ground arith) (omega arith) v
kill_round rounds cnt wp (k ∷ ks) e h l v more =
    let n : length wp.workers ≡ suc (length ks) = ap length e in
    let rest : WorkerPool → Res WorkerPool = kill_loop rounds (pos cnt) in
    elim (Bool-cases (ltb_ℤ (pos cnt) (pos (length wp.workers)))) [
      | inr done ↦ kill_stop rounds cnt wp done (ground arith) v
      | inl above ↦
          let (killed, v1) = kill_last-IsSound k ks wp e v in
          let (wp', e', l', v', c) =
            more (record wp { workers = ks; killed = k ∷ wp.killed }) (omega arith) (ground arith)
              v1 in
          (
            wp',
            (λ i. if above i then (kill_last wp.workers wp >>= rest) else ok wp)
                ∙ (λ i. kill_last (e i) wp >>= rest)
                ∙ (λ i. killed i >>= rest)
                ∙ e',
            l',
            v',
            c,
          )
    ]

kill_loop-IsSound :
    (rounds cnt : ℕ) (wp : WorkerPool)
    → length wp.workers < rounds
    → cnt ≤ length wp.workers
    → IsSound wp
    → Sized cnt wp (kill_loop rounds (pos cnt) wp)
kill_loop-IsSound zero cnt wp h l v = absurd (omega arith)
kill_loop-IsSound (suc rounds) cnt wp h l v =
    kill_round rounds cnt wp wp.workers refl h l v
      (λ wp' h' l' v'. kill_loop-IsSound rounds cnt wp' h' l' v')

-- setCapacity on an open pool gives it the number of workers that it is asked for, by as many rounds
-- as it has, and closes no channel twice.
pub set_capacity-IsSound :
    (cnt : ℕ) (wp : WorkerPool)
    → wp.closed ≡ false
    → IsSound wp
    → (wp' : WorkerPool) × (set_capacity (pos cnt) wp ≡ ok wp')
      × (length wp'.workers ≡ cnt)
      × IsSound wp'
      × (wp'.closed ≡ wp.closed)
unfolding set_capacity
set_capacity-IsSound cnt wp o v =
    let (wp1, e1, l1, v1, c1) = spawn_loop-IsSound cnt cnt wp (omega arith) v in
    let (wp2, e2, l2, v2, c2) =
      kill_loop-IsSound (suc (length wp1.workers)) cnt wp1 (omega arith) l1 v1 in
    let shrink : WorkerPool → Res WorkerPool =
      λ grown. kill_loop (suc (length grown.workers)) (pos cnt) grown in
    (
      wp2,
      (λ i. if o i then ok wp else (spawn_loop cnt (pos cnt) wp >>= shrink))
          ∙ (λ i. e1 i >>= shrink)
          ∙ e2,
      l2,
      v2,
      c2 ∙ c1,
    )

close_workers_lem :
    (ks : List ℕ) (wp : WorkerPool)
    → ((k : ℕ) → times k ks + times k wp.killed ≤ 1)
    → (wp' : WorkerPool) × (close_workers ks wp ≡ ok wp')
      × ((k : ℕ) → times k wp'.killed ≡ times k ks + times k wp.killed)
      × (wp'.next ≡ wp.next)
      × (wp'.group ≡ wp.group)
      × (wp'.closed ≡ wp.closed)
unfolding close_workers times
close_workers_lem [] wp h = (wp, refl, (λ k. omega arith), refl, refl, refl)
close_workers_lem (k ∷ ks) wp h =
    let closed = close_chan_lem k wp (ground (arith, h k)) in
    let (wp', e, n, x, g, c) =
      close_workers_lem ks (record wp { killed = k ∷ wp.killed }) (λ j. omega (arith, h j)) in
    (wp', (λ i. closed i >>= close_workers ks) ∙ e, (λ j. omega (arith, n j)), x, g, c)

-- terminate closes the channel of every worker, none of them twice, and leaves none in the pool.
pub terminate-IsSound :
    (wp : WorkerPool)
    → IsSound wp
    → (wp' : WorkerPool) × (terminate wp ≡ ok wp')
      × (wp'.closed ≡ true)
      × (wp'.workers ≡ [])
      × IsSound wp'
unfolding terminate times
terminate-IsSound wp v =
    let (wp', e, n, x, g, c) =
      close_workers_lem wp.workers (record wp { closed = true }) (λ k. ground (arith, v.once k)) in
    (
      record wp' { workers = [] },
      (λ i. e i >>= λ z. ok (record z { workers = [] })),
      c,
      refl,
      record { once = λ k. ground (arith, n k, v.once k); counted = omega (arith, v.counted) },
    )

-- On a closed pool the call does nothing.
pub set_capacity-keeps :
    (cnt : ℕ) (wp : WorkerPool)
    → IsSound wp
    → (wp' : WorkerPool) × (set_capacity (pos cnt) wp ≡ ok wp') × IsSound wp'
unfolding set_capacity
set_capacity-keeps cnt wp v = elim (Bool-cases wp.closed) [
  | inl c ↦ (wp, simp c refl, v)
  | inr c ↦ let (wp', e, _, v', _) = set_capacity-IsSound cnt wp c v in (wp', e, v')
]
