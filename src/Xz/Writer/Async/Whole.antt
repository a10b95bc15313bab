-- ===== src/Xz/Writer/Async/Whole.antt =====
-- No pipe is lost while the routine `writer` runs: one that the client has taken and that has not been
-- written is on its way, and a worker leaves only when none is left.
use goxz.Base.{
  ℕ, ◌+◌, ◌≤◌, ◌<◌, ◌≡◌, ◌≢◌, arith, Bool, Bool-cases, true, false, ◌||◌, List, ◌++◌, replicate,
  length, ◌⊎◌, inl, inr,
}
use goxz.Bufpipe.{Bufpipe}
use goxz.Xz.PipeSet.{Pipe, count}
use goxz.Xz.Pool.{PipePool, pipes}
use goxz.Xz.Pool.Moves.{Placed, Passed, Restored}
use goxz.Xz.Writer.Async.{
  WorkerAt, idle, gone, holding, encoding, GroupAt, starting, queued, woken, returned, over,
}
use goxz.Xz.Writer.Async.Held.{
  held_at, busy_at, held, busy, held-set, busy-set, held-start, busy-start,
}
use goxz.Xz.Writer.Async.Routines.{get_worker, set_worker, all_gone, wake}
use goxz.Xz.Writer.Async.Staff.{gone_at, gones, gones-set, gones-start, all_gone-none}

module _ {P D : Type 0} where
  -- The indices from `given` on have not been written.
  pub record Whole (idx given : ℕ) (inn out : PipePool P D) (ws : List WorkerAt) (aw : Bool)
      : Type 0 where
    pub every :
        (i : ℕ)
        → given ≤ i
        → i < idx
        → 1 ≤ count i (pipes inn.ready) + held i ws + count i (pipes out.ready) + count i out.active
    pub left : (gones ws ≡ 0) ⊎ ((inn.closed ≡ true) × ((i : ℕ) → count i (pipes inn.ready) ≡ 0))
    pub shut :
        ((out.closed || aw) ≡ false)
        ⊎ ((inn.closed ≡ true)
            × ((i : ℕ) → count i (pipes inn.ready) ≡ 0)
            × ((i : ℕ) → busy i ws ≡ 0))

module _ {P D : Type 0} {idx given : ℕ} {inn out : PipePool P D} {ws : List WorkerAt} {aw : Bool}
    (v : Whole idx given inn out ws aw) where
  -- The input's pool is closed, or has changed in nothing that counts.
  pub Whole-same_in :
      (inn' : PipePool P D)
      → ((i : ℕ) → count i (pipes inn'.ready) ≡ count i (pipes inn.ready))
      → (inn.closed ≡ true → inn'.closed ≡ true)
      → Whole idx given inn' out ws aw
  Whole-same_in inn' r c = record {
    every = λ i l h. omega (arith, r i, v.every i l h);
    left = elim v.left [ inl g ↦ inl g | inr (d, z) ↦ inr (c d, λ i. omega (arith, r i, z i)) ];
    shut = elim v.shut [
      | inl o ↦ inl o
      | inr (d, z, b) ↦ inr (c d, (λ i. omega (arith, r i, z i)), b)
    ];
  }

  pub Whole-same_out :
      (out' : PipePool P D)
      → ((i : ℕ) → count i (pipes out'.ready) ≡ count i (pipes out.ready))
      → ((i : ℕ) → count i out'.active ≡ count i out.active)
      → out'.closed ≡ out.closed
      → Whole idx given inn out' ws aw
  Whole-same_out out' r a c = record {
    every = λ i l h. omega (arith, r i, a i, v.every i l h);
    left = v.left;
    shut = elim v.shut [ inl o ↦ inl (rw c o) | inr x ↦ inr x ];
  }

  pub Whole-take :
      (inn' : PipePool P D)
      → Placed idx inn inn'
      → inn.closed ≡ false
      → Whole (idx + 1) given inn' out ws aw
  Whole-take inn' c o = record {
    every = λ i l h. ground (arith, c.ready i, v.every i l);
    left = elim v.left [ inl g ↦ inl g | inr (d, z) ↦ absurd (cc) ];
    shut = elim v.shut [ inl x ↦ inl x | inr (d, z, b) ↦ absurd (cc) ];
  }

  pub Whole-fetch :
      (k : ℕ) (inn' : PipePool P D) (p : Pipe P D)
      → get_worker k ws ≡ idle
      → Passed p inn inn'
      → Whole idx given inn' out (set_worker k (holding p.idx) ws) aw
  unfolding held_at gone_at
  Whole-fetch k inn' p e c =
      let h = λ (i : ℕ). held-set i k (holding p.idx) idle ws e (λ x. cc) in
      record {
        every = λ i l m. ground (arith, c.ready i, c.was, h i, v.every i l m);
        left = elim v.left [
          | inl g ↦ inl (omega (arith, g, gones-set k (holding p.idx) idle ws e (λ x. cc)))
          | inr (d, z) ↦ absurd (omega (arith, z p.idx, c.was))
        ];
        shut = elim v.shut [
          | inl x ↦ inl x
          | inr (d, z, b) ↦ absurd (omega (arith, z p.idx, c.was))
        ];
      }

  -- A worker leaves a closed pool with nothing ready.
  pub Whole-leave :
      (k : ℕ)
      → get_worker k ws ≡ idle
      → inn.closed ≡ true
      → ((i : ℕ) → count i (pipes inn.ready) ≡ 0)
      → Whole idx given inn out (set_worker k gone ws) aw
  unfolding held_at busy_at
  Whole-leave k e c z = record {
    every = λ i l m. omega (arith, held-set i k gone idle ws e (λ x. cc), v.every i l m);
    left = inr (c, z);
    shut = elim v.shut [
      | inl x ↦ inl x
      | inr (d, y, b) ↦ inr (d, y, λ i. omega (arith, b i, busy-set i k gone idle ws e (λ x. cc)))
    ];
  }

  -- A worker goes on with the pipes it has, or without.
  pub Whole-move :
      (k : ℕ) (a b : WorkerAt)
      → get_worker k ws ≡ a
      → a ≢ gone
      → gone_at b ≡ 0
      → ((i : ℕ) → held_at i b ≡ held_at i a)
      → ((i : ℕ) → busy_at i b ≤ busy_at i a)
      → Whole idx given inn out (set_worker k b ws) aw
  Whole-move k a b e n g h u = record {
    every = λ i l m. omega (arith, h i, held-set i k b a ws e n, v.every i l m);
    left = elim v.left [
      | inl x ↦ inl (omega (arith, x, g, gones-set k b a ws e n))
      | inr x ↦ inr x
    ];
    shut = elim v.shut [
      | inl x ↦ inl x
      | inr (d, y, z) ↦ inr (d, y, λ i. omega (arith, z i, u i, busy-set i k b a ws e n))
    ];
  }

  pub Whole-pair :
      (k j : ℕ) (out' : PipePool P D)
      → get_worker k ws ≡ holding j
      → Placed j out out'
      → out.closed ≡ false
      → Whole idx given inn out' (set_worker k (encoding j) ws) aw
  unfolding held_at gone_at busy_at
  Whole-pair k j out' e c o =
      let h = λ (i : ℕ). held-set i k (encoding j) (holding j) ws e (λ x. cc) in
      record {
        every = λ i l m. ground (arith, c.ready i, c.active, h i, v.every i l m);
        left = elim v.left [
          | inl g ↦ inl (omega (arith, g, gones-set k (encoding j) (holding j) ws e (λ x. cc)))
          | inr x ↦ inr x
        ];
        shut = elim v.shut [
          | inl x ↦ inl (rw c.closed x)
          | inr (d, z, b) ↦
              absurd (ground (arith, b j, busy-set j k gone (holding j) ws e (λ x. cc)))
        ];
      }

  -- The output's pool does not refuse a pipe to a worker that has an input pipe.
  pub Whole-ne-shut : (k j : ℕ) → get_worker k ws ≡ holding j → out.closed ≢ true
  unfolding busy_at
  Whole-ne-shut k j e c = elim v.shut [
    | inl o ↦ cc
    | inr (d, z, b) ↦ ground (arith, b j, busy-set j k gone (holding j) ws e (λ x. cc))
  ]

  pub Whole-receive :
      (out' : PipePool P D) (p : Pipe P D) → Passed p out out' → Whole idx given inn out' ws aw
  Whole-receive out' p c = record {
    every = λ i l m. ground (arith, c.ready i, c.was, c.active i, v.every i l m);
    left = v.left;
    shut = elim v.shut [ inl o ↦ inl (rw c.closed o) | inr x ↦ inr x ];
  }

  pub Whole-start : (n : ℕ) → Whole idx given inn out (ws ++ replicate n idle) aw
  Whole-start n = record {
    every = λ i l m. omega (arith, held-start i n ws, v.every i l m);
    left = elim v.left [ inl g ↦ inl (omega (arith, g, gones-start n ws)) | inr x ↦ inr x ];
    shut = elim v.shut [
      | inl o ↦ inl o
      | inr (d, z, b) ↦ inr (d, z, λ i. omega (arith, b i, busy-start i n ws))
    ];
  }

  -- The last worker has left: nothing more comes from the input.
  pub Whole-emptied : all_gone ws ≡ true → 1 ≤ length ws → Whole idx given inn out ws true
  Whole-emptied g n = record {
    every = v.every;
    left = v.left;
    shut = elim v.left [
      | inl x ↦ absurd (omega (arith, x, n, (all_gone-none 0 ws g).1))
      | inr (d, z) ↦ inr (d, z, λ i. (all_gone-none i ws g).0)
    ];
  }

  -- The output's pool is closed.
  pub Whole-close :
      (out' : PipePool P D)
      → out'.ready ≡ out.ready
      → out'.active ≡ out.active
      → aw ≡ true
      → Whole idx given inn out' ws aw
  Whole-close out' r a t = record {
    every = λ i l m. rw (r, a) (v.every i l m);
    left = v.left;
    shut = elim v.shut [ inl o ↦ absurd (ground (arith, t)) | inr x ↦ inr x ];
  }

unfoldable pub awake : GroupAt → Bool
awake starting = false
awake queued = false
awake woken = true
awake returned = true
awake over = true

-- The last one wakes the group.
pub Whole-wake :
    {P D : Type 0} {idx given : ℕ} {inn out : PipePool P D} {ws : List WorkerAt} (g : GroupAt)
    → 1 ≤ length ws
    → Whole idx given inn out ws (awake g)
    → Whole idx given inn out ws (awake (wake g (all_gone ws)))
unfolding awake wake
Whole-wake {ws} queued n v = elim (Bool-cases (all_gone ws)) [
  | inl t ↦ rw t (Whole-emptied v t n)
  | inr t ↦ rw t v
]
Whole-wake starting n v = v
Whole-wake woken n v = v
Whole-wake returned n v = v
Whole-wake over n v = v

module _ (b : Bufpipe) {D : Type 0} {idx given : ℕ} {inn out : PipePool (b.BufferPipe) D}
    {ws : List WorkerAt} {aw : Bool} (v : Whole idx given inn out ws aw) where
  pub Whole-take_back :
      (out' : PipePool (b.BufferPipe) D)
      → Restored b given out out'
      → Whole idx (given + 1) inn out' ws aw
  Whole-take_back out' c = record {
    every = λ i l m. ground (arith, c.ready, c.active i, v.every i);
    left = v.left;
    shut = elim v.shut [ inl o ↦ inl (rw c.closed o) | inr x ↦ inr x ];
  }
