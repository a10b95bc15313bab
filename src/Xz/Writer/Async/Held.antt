-- ===== src/Xz/Writer/Async/Held.antt =====
-- The input pipes that the workers have.
use goxz.Base.{
  ℕ, zero, suc, ◌+◌, ◌≤◌, ◌≡◌, ◌≢◌, ap, refl, arith, List, [], ◌∷◌, ◌++◌, replicate, ◌==◌,
  if◌then◌else◌,
}
use goxz.Xz.Writer.Async.{WorkerAt, idle, gone, holding, encoding, restoring}
use goxz.Xz.Writer.Async.Routines.{get_worker, set_worker}

-- Whether a worker has an input pipe that has no output pipe yet, and whether it has an input pipe.
unfoldable pub held_at : ℕ → WorkerAt → ℕ
held_at i (holding j) = if j == i then 1 else 0
held_at i idle = 0
held_at i gone = 0
held_at i (encoding j) = 0
held_at i (restoring j) = 0

unfoldable pub busy_at : ℕ → WorkerAt → ℕ
busy_at i idle = 0
busy_at i gone = 0
busy_at i (holding j) = if j == i then 1 else 0
busy_at i (encoding j) = if j == i then 1 else 0
busy_at i (restoring j) = if j == i then 1 else 0

unfoldable pub held : ℕ → List WorkerAt → ℕ
held i [] = 0
held i (a ∷ ws) = held_at i a + held i ws

unfoldable pub busy : ℕ → List WorkerAt → ℕ
busy i [] = 0
busy i (a ∷ ws) = busy_at i a + busy i ws

pub held-set :
    (i k : ℕ) (b a : WorkerAt) (ws : List WorkerAt)
    → get_worker k ws ≡ a
    → a ≢ gone
    → held i (set_worker k b ws) + held_at i a ≡ held i ws + held_at i b
unfolding held get_worker set_worker
held-set i k b a [] e h = absurd (ground (arith, h))
held-set i zero b a (c ∷ ws) e h = ground arith
held-set i (suc k) b a (c ∷ ws) e h = ground (arith, held-set i k b a ws e h)

pub busy-set :
    (i k : ℕ) (b a : WorkerAt) (ws : List WorkerAt)
    → get_worker k ws ≡ a
    → a ≢ gone
    → busy i (set_worker k b ws) + busy_at i a ≡ busy i ws + busy_at i b
unfolding busy get_worker set_worker
busy-set i k b a [] e h = absurd (ground (arith, h))
busy-set i zero b a (c ∷ ws) e h = ground arith
busy-set i (suc k) b a (c ∷ ws) e h = ground (arith, busy-set i k b a ws e h)

pub held-le-busy : (i : ℕ) (ws : List WorkerAt) → held i ws ≤ busy i ws
unfolding held busy held_at busy_at
held-le-busy i [] = omega arith
held-le-busy i (gone ∷ ws) = omega (arith, held-le-busy i ws)
held-le-busy i (idle ∷ ws) = omega (arith, held-le-busy i ws)
held-le-busy i (holding j ∷ ws) = ground (arith, held-le-busy i ws)
held-le-busy i (encoding j ∷ ws) = ground (arith, held-le-busy i ws)
held-le-busy i (restoring j ∷ ws) = ground (arith, held-le-busy i ws)

-- New workers have no pipe.
pub held-start : (i n : ℕ) (ws : List WorkerAt) → held i (ws ++ replicate n idle) ≡ held i ws
unfolding held held_at
held-start i zero [] = refl
held-start i (suc n) [] = omega (arith, held-start i n [])
held-start i n (a ∷ ws) = ap (λ t. held_at i a + t) (held-start i n ws)

pub busy-start : (i n : ℕ) (ws : List WorkerAt) → busy i (ws ++ replicate n idle) ≡ busy i ws
unfolding busy busy_at
busy-start i zero [] = refl
busy-start i (suc n) [] = omega (arith, busy-start i n [])
busy-start i n (a ∷ ws) = ap (λ t. busy_at i a + t) (busy-start i n ws)
