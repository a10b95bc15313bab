-- ===== src/Xz/WorkerPool/Grow.antt =====
-- A call of setCapacity that asks for no fewer workers kills none.
use goxz.Base.{
  ℕ, zero, suc, ◌+◌, ◌≤◌, ◌≡◌, refl, arith, true, false, Bool-cases, inl, inr, length, subst,
}
use goxz.Base.Int.{pos, ltb_ℤ}
use goxz.Go.{ok}
use goxz.Xz.WorkerPool.{WorkerPool, spawn, spawn_loop, kill_loop, set_capacity}

-- The pool has more workers, and none is killed.
pub record Grown (cnt : ℕ) (wp wp' : WorkerPool) : Type 0 where
  pub workers : length wp'.workers ≡ cnt
  pub killed : wp'.killed ≡ wp.killed
  pub closed : wp'.closed ≡ wp.closed
  pub next : wp.next ≤ wp'.next
  pub started : (wp.monitored ≡ true → 1 ≤ wp.next) → wp'.monitored ≡ true → 1 ≤ wp'.next

spawn_loop-Grown :
    (rounds cnt : ℕ) (wp : WorkerPool)
    → cnt ≤ rounds + length wp.workers
    → length wp.workers ≤ cnt
    → (wp' : WorkerPool) × (spawn_loop rounds (pos cnt) wp ≡ ok wp') × Grown cnt wp wp'
unfolding spawn_loop spawn
spawn_loop-Grown zero cnt wp h l = (
  wp,
  ground arith,
  record {
    workers = omega arith;
    killed = refl;
    closed = refl;
    next = omega arith;
    started = λ f. f;
  },
)
spawn_loop-Grown (suc rounds) cnt wp h l =
    elim (Bool-cases (ltb_ℤ (pos (length wp.workers)) (pos cnt))) [
      | inl t ↦
          let (wp', e, g) = spawn_loop-Grown rounds cnt (spawn wp) (ground arith) (ground arith) in
          (
            wp',
            ground arith,
            record {
              workers = g.workers;
              killed = g.killed;
              closed = g.closed;
              next = omega (arith, g.next);
              started = λ f m. omega (arith, g.next);
            },
          )
      | inr t ↦ (
        wp,
        ground arith,
        record {
          workers = ground arith;
          killed = refl;
          closed = refl;
          next = omega arith;
          started = λ f. f;
        },
      )
    ]

pub set_capacity-Grown :
    (cnt : ℕ) (wp wp' : WorkerPool)
    → wp.closed ≡ false
    → length wp.workers ≤ cnt
    → set_capacity (pos cnt) wp ≡ ok wp'
    → Grown cnt wp wp'
unfolding set_capacity kill_loop
set_capacity-Grown cnt wp wp' c l e =
    let (wq, q, g) = spawn_loop-Grown cnt cnt wp (omega arith) l in
    let stays : kill_loop (suc (length wq.workers)) (pos cnt) wq ≡ ok wq =
      ground (arith, g.workers) in
    let found : ok wq ≡ ok wp' = simp (c, q, stays) at e in subst (Grown cnt wp) (cc) g
