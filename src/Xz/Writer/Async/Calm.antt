-- ===== src/Xz/Writer/Async/Calm.antt =====
-- What moves no pipe of a pool: a change of a buffer, a call that returns nil, and the methods that
-- resize, close and terminate.
use goxz.Base.{ap, ◌∙◌, true, inl, inr, ℕ, ◌≡◌, refl, arith, Option, none, some, [], ◌∷◌, length}
use goxz.Base.Int.{ℤ, pos, negsuc}
use goxz.Bufpipe.{Bufpipe}
use goxz.Go.{ok}
use goxz.Xz.PipeSet.{Pipe, PipeSet, count, count-nil, count-close_all}
use goxz.Xz.Pool.{PipePool, pipes, with_map, enter_reader, set_capacity, close, terminate}
use goxz.Xz.Pool.Invariant.{Inv}
use goxz.Xz.Pool.Moves.{Still}
use goxz.Xz.Pool.Steps.{terminate-Inv}
use goxz.Xz.Writer.Async.{SizeStats, poke_set, poke}
use goxz.Xz.Writer.Async.Flow.{Calm}

module _ {P : Type 0} where
  pub count-poke_set :
      (i j : ℕ) (f : Pipe P SizeStats → Pipe P SizeStats) (m : PipeSet P SizeStats)
      → count j (poke_set i f m) ≡ count j m
  unfolding count poke_set
  count-poke_set i j f [] = refl
  count-poke_set i j f (p ∷ m) = ground (arith, count-poke_set i j f m)

  length-poke_set :
      (i : ℕ) (f : Pipe P SizeStats → Pipe P SizeStats) (m : PipeSet P SizeStats)
      → length (poke_set i f m) ≡ length m
  unfolding poke_set
  length-poke_set i f [] = refl
  length-poke_set i f (p ∷ m) = ground (arith, length-poke_set i f m)

  pipes-poke :
      (i : ℕ) (f : Pipe P SizeStats → Pipe P SizeStats) (ready : Option (PipeSet P SizeStats))
      → pipes (with_map ready (poke_set i f (pipes ready))) ≡ poke_set i f (pipes ready)
  unfolding poke_set
  pipes-poke i f none = refl
  pipes-poke i f (some m) = refl

  -- Sets of the same counts and lengths, and a pool that is closed if it was.
  same_counts-Calm :
      {D : Type 0} (pp pp' : PipePool P D)
      → pp'.len ≡ pp.len
      → ((i : ℕ) → count i pp'.free ≡ count i pp.free)
      → length pp'.free ≡ length pp.free
      → ((i : ℕ) → count i (pipes pp'.ready) ≡ count i (pipes pp.ready))
      → ((i : ℕ) → count i pp'.active ≡ count i pp.active)
      → length (pipes pp'.ready) ≡ length (pipes pp.ready)
      → length pp'.active ≡ length pp.active
      → (pp'.ready ≡ none → pp.ready ≡ none)
      → (pp.ready ≡ none → pp'.ready ≡ none)
      → (pp.closed ≡ true → pp'.closed ≡ true)
      → Calm pp pp'
  same_counts-Calm pp pp' l f lf r a lr la n n' c = record {
    ready = λ i. omega (arith, r i);
    active = a;
    free = λ i. omega (arith, f i);
    inv = λ v. record {
      bounded = omega (arith, v.bounded, l, lf, lr, la);
      counted = elim v.counted [
        | inl e ↦ inl (n' e)
        | inr e ↦ inr (omega (arith, e, l, lf, lr, la))
      ];
      unique = λ i. omega (arith, v.unique i, r i, a i, f i);
    };
    shut = λ h e. c (h (n e));
  }

  with_map-none :
      {D : Type 0} (r : Option (PipeSet P D)) (m : PipeSet P D) → with_map r m ≡ none → r ≡ none
  with_map-none none m e = refl
  with_map-none (some _) m e = absurd (cc)

  none-with_map :
      {D : Type 0} (r : Option (PipeSet P D)) (m : PipeSet P D) → r ≡ none → with_map r m ≡ none
  none-with_map none m e = refl
  none-with_map (some _) m e = absurd (cc)

  pub count-pipes-poke :
      (i j : ℕ) (f : Pipe P SizeStats → Pipe P SizeStats) (pp : PipePool P SizeStats)
      → count j (pipes (poke i f pp).ready) ≡ count j (pipes pp.ready)
  unfolding poke
  count-pipes-poke i j f pp =
      ap (count j) (pipes-poke i f pp.ready) ∙ count-poke_set i j f (pipes pp.ready)

  pub poke-Calm :
      (i : ℕ) (f : Pipe P SizeStats → Pipe P SizeStats) (pp : PipePool P SizeStats)
      → Calm pp (poke i f pp)
  unfolding poke
  poke-Calm i f pp =
      same_counts-Calm pp (poke i f pp) refl (λ j. count-poke_set i j f pp.free)
        (length-poke_set i f pp.free) (λ j. count-pipes-poke i j f pp)
        (λ j. count-poke_set i j f pp.active)
        (ap length (pipes-poke i f pp.ready) ∙ length-poke_set i f (pipes pp.ready))
        (length-poke_set i f pp.active) (with_map-none pp.ready _) (none-with_map pp.ready _)
        (λ e. e)

  pub set_capacity-Calm : {D : Type 0} (pp : PipePool P D) (cnt : ℕ) → Calm pp (set_capacity pp cnt)
  unfolding set_capacity
  set_capacity-Calm pp cnt =
      same_counts-Calm pp (set_capacity pp cnt) refl (λ j. refl) refl (λ j. refl) (λ j. refl) refl
        refl (λ e. e) (λ e. e) (λ e. e)

  pub close-Calm : {D : Type 0} (pp : PipePool P D) → Calm pp (close pp)
  unfolding close
  close-Calm pp =
      same_counts-Calm pp (close pp) refl (λ j. refl) refl (λ j. refl) (λ j. refl) refl refl
        (λ e. e) (λ e. e) (λ e. refl)

  pub wait_idx-Calm :
      {D : Type 0} (pp : PipePool P D) (w : ℤ) → Calm pp (record pp { wait_idx = w })
  wait_idx-Calm pp w =
      same_counts-Calm pp (record pp { wait_idx = w }) refl (λ j. refl) refl (λ j. refl) (λ j. refl)
        refl refl (λ e. e) (λ e. e) (λ e. e)

  -- The index that is waited for is announced where no other one is.
  pub enter_reader_lem :
      {D : Type 0} (pp : PipePool P D) (i : ℕ)
      → pp.wait_idx ≡ negsuc 0
      → enter_reader pp (pos i) ≡ ok (record pp { wait_idx = pos i })
  unfolding enter_reader
  enter_reader_lem pp i e = ground arith

  pub Still-Calm :
      {D : Type 0} (pp pp' : PipePool P D) → (Inv pp → Inv pp') → Still pp pp' → Calm pp pp'
  Still-Calm pp pp' n c = record {
    ready = λ i. omega (arith, ap (count i) c.ready);
    active = λ i. ap (count i) c.active;
    free = λ i. omega (arith, ap (count i) c.free);
    inv = n;
    shut = λ h e. c.closed ∙ h (c.is_map e);
  }

module _ (b : Bufpipe) {D : Type 0} where
  pub terminate-Calm : (pp : PipePool (b.BufferPipe) D) → Calm pp (terminate b pp)
  unfolding terminate
  terminate-Calm pp = record {
    ready = λ i. omega (arith, count-nil {P = b.BufferPipe} {D = D} i [] refl);
    active = λ i. count-close_all b i pp.active;
    free = λ i. omega arith;
    inv = terminate-Inv b pp;
    shut = λ h e. refl;
  }
