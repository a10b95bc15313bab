-- ===== src/Xz/PipeSet.antt =====
-- xz/pool.go, pipe and pipeSet. A set is the list of its pipes; a pipe's key in the map is its `idx`,
-- which changes only while the pipe is in no set. The pool refuses a negative index.
use goxz.Base.{
  ℕ, zero, suc, ◌+◌, ◌≤◌, ◌≡◌, refl, arith, Bool, true, false, List, [], ◌∷◌, length, Option, none,
  some, ◌==◌, if◌then◌else◌,
}
use goxz.Bufpipe.{Bufpipe}

-- `data` is what the client attached, nil or a `D`.
pub record Pipe (P D : Type 0) : Type 0 where
  pub buffer_pipe : P
  pub idx : ℕ
  pub payload : Option D

abbrev pub PipeSet : Type 0 → Type 0 → Type 0
PipeSet P D = List (Pipe P D)

module _ {P D : Type 0} where
  -- m[idx]
  unfoldable pub find : ℕ → PipeSet P D → Option (Pipe P D)
  find i [] = none
  find i (p ∷ m) = if p.idx == i then some p else find i m

  -- delete(m, idx)
  unfoldable pub delete : ℕ → PipeSet P D → PipeSet P D
  delete i [] = []
  delete i (p ∷ m) = if p.idx == i then delete i m else p ∷ delete i m

  -- m.remove(p)
  unfoldable pub remove : PipeSet P D → Pipe P D → PipeSet P D × Bool
  remove m p = (delete p.idx m, elim (find p.idx m) [ none ↦ false | some q ↦ true ])

  -- m.push(p)
  unfoldable pub push : PipeSet P D → Pipe P D → PipeSet P D
  push m p = p ∷ delete p.idx m

  -- The first pipe that the iteration over the map meets: any of them, by `choice`.
  unfoldable pub first_met : ℕ → PipeSet P D → Option (Pipe P D)
  first_met choice [] = none
  first_met zero (p ∷ m) = some p
  first_met (suc choice) (p ∷ []) = some p
  first_met (suc choice) (p ∷ (q ∷ m)) = first_met choice (q ∷ m)

  -- m.pop()
  unfoldable pub pop : ℕ → PipeSet P D → Option (Pipe P D) × PipeSet P D
  pop choice m = elim (first_met choice m) [ none ↦ (none, m) | some p ↦ (some p, delete p.idx m) ]

  -- How many pipes have the index.
  unfoldable pub count : ℕ → PipeSet P D → ℕ
  count i [] = 0
  count i (p ∷ m) = (if p.idx == i then 1 else 0) + count i m

  pub count-nil : (i : ℕ) (m : PipeSet P D) → m ≡ [] → count i m ≡ 0
  unfolding count
  count-nil i [] e = refl
  count-nil i (p ∷ m) e = absurd (cc)

  pub count-delete :
      (k i : ℕ) (m : PipeSet P D) → count i (delete k m) ≡ (if k == i then 0 else count i m)
  unfolding count delete
  count-delete k i [] = ground arith
  count-delete k i (p ∷ m) = ground (arith, count-delete k i m)

  pub length-delete : (k : ℕ) (m : PipeSet P D) → length (delete k m) + count k m ≡ length m
  unfolding count delete
  length-delete k [] = ground arith
  length-delete k (p ∷ m) = ground (arith, length-delete k m)

  pub count-push :
      (i : ℕ) (m : PipeSet P D) (p : Pipe P D)
      → count i (push m p) ≡ (if p.idx == i then 1 else count i m)
  unfolding count push
  count-push i m p = ground (arith, count-delete p.idx i m)

  pub length-push :
      (m : PipeSet P D) (p : Pipe P D) → length (push m p) + count p.idx m ≡ length m + 1
  unfolding push
  length-push m p = ground (arith, length-delete p.idx m)

  -- A pipe that is found has the index, and is counted.
  pub find-some :
      (i : ℕ) (m : PipeSet P D) {p : Pipe P D} → find i m ≡ some p → (p.idx ≡ i) × (1 ≤ count i m)
  unfolding find count
  find-some i [] e = ground arith
  find-some i (q ∷ m) {p} e = ground (arith, find-some i m {p = p})

  pub find-none : (i : ℕ) (m : PipeSet P D) → find i m ≡ none → count i m ≡ 0
  unfolding find count
  find-none i [] e = refl
  find-none i (q ∷ m) e = ground (arith, find-none i m)

  pub first_met-some :
      (choice : ℕ) (m : PipeSet P D) {p : Pipe P D}
      → first_met choice m ≡ some p
      → 1 ≤ count p.idx m
  unfolding first_met count
  first_met-some choice [] e = ground arith
  first_met-some zero (q ∷ m) e = ground arith
  first_met-some (suc choice) (q ∷ []) e = ground arith
  first_met-some (suc choice) (q ∷ (r ∷ m)) {p} e =
      ground (arith, first_met-some choice (r ∷ m) {p = p})

  pub first_met-none : (choice : ℕ) (m : PipeSet P D) → first_met choice m ≡ none → m ≡ []
  unfolding first_met
  first_met-none choice [] e = refl
  first_met-none zero (q ∷ m) e = ground arith
  first_met-none (suc choice) (q ∷ []) e = ground arith
  first_met-none (suc choice) (q ∷ (r ∷ m)) e = ground (arith, first_met-none choice (r ∷ m))

module _ (b : Bufpipe) {D : Type 0} where
  -- m.close()
  pub close_all : PipeSet (b.BufferPipe) D → PipeSet (b.BufferPipe) D
  close_all [] = []
  close_all (p ∷ m) = record p { buffer_pipe = b.close p.buffer_pipe } ∷ close_all m

  pub count-close_all : (i : ℕ) (m : PipeSet (b.BufferPipe) D) → count i (close_all m) ≡ count i m
  unfolding count close_all
  count-close_all i [] = refl
  count-close_all i (p ∷ m) = ground (arith, count-close_all i m)

  pub length-close_all : (m : PipeSet (b.BufferPipe) D) → length (close_all m) ≡ length m
  unfolding close_all
  length-close_all [] = refl
  length-close_all (p ∷ m) = ground (arith, length-close_all m)
