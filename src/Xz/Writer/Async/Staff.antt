-- ===== src/Xz/Writer/Async/Staff.antt =====
-- The workers while the routine `writer` runs: none is killed, and none leaves early.
use goxz.Base.{
  ℕ, zero, suc, ◌+◌, ◌-◌, ◌≤◌, ◌≡◌, ◌≢◌, refl, ap, arith, Bool, true, false, ◌&&◌, leb, List, [],
  ◌∷◌, ◌++◌, length, replicate,
}
use goxz.Xz.WorkerPool.{WorkerPool}
use goxz.Xz.WorkerPool.Grow.{Grown}
use goxz.Xz.Writer.Async.{
  WorkerAt, idle, gone, holding, encoding, restoring, Task, scale_in, scale_out, scale_work,
  await_done, end_work, end_out, end_in,
}
use goxz.Xz.Writer.Async.Held.{busy_at, busy}
use goxz.Xz.Writer.Async.Routines.{get_worker, set_worker, all_gone}

unfoldable pub gone_at : WorkerAt → ℕ
gone_at idle = 0
gone_at gone = 1
gone_at (holding i) = 0
gone_at (encoding i) = 0
gone_at (restoring i) = 0

unfoldable pub gones : List WorkerAt → ℕ
gones [] = 0
gones (a ∷ ws) = gone_at a + gones ws

pub gones-set :
    (k : ℕ) (b a : WorkerAt) (ws : List WorkerAt)
    → get_worker k ws ≡ a
    → a ≢ gone
    → gones (set_worker k b ws) + gone_at a ≡ gones ws + gone_at b
unfolding gones get_worker set_worker
gones-set k b a [] e h = absurd (ground (arith, h))
gones-set zero b a (c ∷ ws) e h = ground arith
gones-set (suc k) b a (c ∷ ws) e h = ground (arith, gones-set k b a ws e h)

pub gones-start : (n : ℕ) (ws : List WorkerAt) → gones (ws ++ replicate n idle) ≡ gones ws
unfolding gones gone_at
gones-start zero [] = refl
gones-start (suc n) [] = omega (arith, gones-start n [])
gones-start n (a ∷ ws) = ap (λ t. gone_at a + t) (gones-start n ws)

pub length-set :
    (k : ℕ) (b : WorkerAt) (ws : List WorkerAt) → length (set_worker k b ws) ≡ length ws
unfolding set_worker
length-set k b [] = refl
length-set zero b (a ∷ ws) = refl
length-set (suc k) b (a ∷ ws) = omega (arith, length-set k b ws)

-- Where all have left, there is one that has, and none has a pipe.
pub all_gone-none :
    (i : ℕ) (ws : List WorkerAt) → all_gone ws ≡ true → (busy i ws ≡ 0) × (gones ws ≡ length ws)
unfolding all_gone busy busy_at gones gone_at
all_gone-none i [] e = (refl, refl)
all_gone-none i (gone ∷ ws) e =
    let (x, y) = all_gone-none i ws e in (omega (arith, x), omega (arith, y))
all_gone-none i (idle ∷ ws) e = absurd (cc)
all_gone-none i (holding j ∷ ws) e = absurd (cc)
all_gone-none i (encoding j ∷ ws) e = absurd (cc)
all_gone-none i (restoring j ∷ ws) e = absurd (cc)

-- What is left of `monitor` asks for no fewer workers, and awaits the end of the routine `writer`
-- before it ends the pools.
unfoldable pub patient : ℕ → List Task → Bool
patient n [] = false
patient n (scale_in cnt ∷ ts) = patient n ts
patient n (scale_out cnt ∷ ts) = patient n ts
patient n (scale_work cnt ∷ ts) = leb n cnt && patient cnt ts
patient n (await_done ∷ ts) = true
patient n (end_work ∷ ts) = false
patient n (end_out ∷ ts) = false
patient n (end_in ∷ ts) = false

pub record Staffed (ws : List WorkerAt) (wp : WorkerPool) (ts : List Task) : Type 0 where
  pub open_pool : wp.closed ≡ false
  pub unkilled : wp.killed ≡ []
  pub ahead : patient (length wp.workers) ts ≡ true
  pub all : length ws ≡ wp.next
  pub started : wp.monitored ≡ true → 1 ≤ wp.next

pub Staffed-set :
    (k : ℕ) (b : WorkerAt) (ws : List WorkerAt) (wp : WorkerPool) (ts : List Task)
    → Staffed ws wp ts
    → Staffed (set_worker k b ws) wp ts
Staffed-set k b ws wp ts v = record {
  open_pool = v.open_pool;
  unkilled = v.unkilled;
  ahead = v.ahead;
  all = omega (arith, v.all, length-set k b ws);
  started = v.started;
}

length-start : (n : ℕ) (ws : List WorkerAt) → length (ws ++ replicate n idle) ≡ length ws + n
length-start zero [] = refl
length-start (suc n) [] = omega (arith, length-start n [])
length-start n (a ∷ ws) = omega (arith, length-start n ws)

pub Staffed-grow :
    (cnt : ℕ) (ws : List WorkerAt) (wp wp' : WorkerPool) (ts : List Task)
    → Grown cnt wp wp'
    → Staffed ws wp (scale_work cnt ∷ ts)
    → Staffed (ws ++ replicate (wp'.next - length ws) idle) wp' ts
unfolding patient
Staffed-grow cnt ws wp wp' ts g v = record {
  open_pool = ground (arith, g.closed, v.open_pool);
  unkilled = ground (arith, g.killed, v.unkilled);
  ahead = ground (arith, g.workers, v.ahead);
  all = omega (arith, v.all, g.next, length-start (wp'.next - length ws) ws);
  started = g.started v.started;
}
