-- ===== src/Xz/Pool/Readers.antt =====
-- getReader keeps the invariant.
use goxz.Base.{ℕ, ◌≤◌, ◌≡◌, refl, arith, [], Option, none, some, ◌⊎◌, inl, inr, Option-cases}
use goxz.Base.Int.{ℤ, pos, negsuc}
use goxz.Xz.PipeSet.{
  Pipe, PipeSet, find, delete, remove, push, count, count-nil, count-push, length-push,
  count-delete, length-delete, find-some,
}
use goxz.Xz.Pool.{PipePool, returns, pipes, with_map, get_reader}
use goxz.Xz.Pool.Invariant.{Inv, pop-cases}

module _ {P D : Type 0} where
  -- A map that holds a pipe is not nil.
  pub pipes-with_map :
      (i : ℕ) (ready : Option (PipeSet P D)) (m : PipeSet P D)
      → 1 ≤ count i (pipes ready)
      → pipes (with_map ready m) ≡ m
  pipes-with_map i none m n = absurd (omega (arith, count-nil {P = P} {D = D} i [] refl))
  pipes-with_map i (some _) m n = refl

  -- A pipe goes from the ready set to the active one.
  hand_over-Inv :
      (pp : PipePool P D) (p : Pipe P D) (w : ℤ)
      → 1 ≤ count p.idx (pipes pp.ready)
      → Inv pp
      → Inv (record pp {
        ready = with_map pp.ready (delete p.idx (pipes pp.ready));
        wait_idx = w;
        active = push pp.active p;
      })
  hand_over-Inv pp p w n v = record {
    bounded = ground (
      arith,
      left,
      v.bounded,
      v.unique p.idx,
      length-delete p.idx (pipes pp.ready),
      length-push pp.active p,
    );
    counted = ground (
      arith,
      left,
      v.counted,
      v.unique p.idx,
      length-delete p.idx (pipes pp.ready),
      length-push pp.active p,
    );
    unique = λ i. rw left (
        ground
          (arith, n, v.unique i, count-delete p.idx i (pipes pp.ready), count-push i pp.active p));
  }
    where
      left :
          pipes (with_map pp.ready (delete p.idx (pipes pp.ready))) ≡ delete p.idx (pipes pp.ready)
      left = pipes-with_map p.idx pp.ready _ n

  -- A call that returns nil leaves the sets as they are.
  nothing-Inv :
      (pp : PipePool P D) (w : ℤ)
      → Inv pp
      → Inv (record pp { ready = with_map pp.ready (pipes pp.ready); wait_idx = w })
  nothing-Inv pp w v = record {
    bounded = ground (arith, v.bounded);
    counted = ground (arith, v.counted);
    unique = λ i. ground (arith, v.unique i);
  }

  -- What a call that returns has done.
  unfoldable pub Handed : (pp pp' : PipePool P D) (w : ℤ) (r : Option (Pipe P D)) → Type 0
  Handed pp pp' w r =
      ((r ≡ none) × (pp' ≡ record pp { ready = with_map pp.ready (pipes pp.ready); wait_idx = w }))
      ⊎ ((p : Pipe P D) × (r ≡ some p)
          × (1 ≤ count p.idx (pipes pp.ready))
          × (pp' ≡ record pp {
            ready = with_map pp.ready (delete p.idx (pipes pp.ready));
            wait_idx = w;
            active = push pp.active p;
          }))

  pub get_reader_idx-cases :
      (choice i : ℕ) (pp pp' : PipePool P D) {r : Option (Pipe P D)}
      → get_reader choice pp (pos i) ≡ returns pp' r
      → Handed pp pp' (negsuc 0) r
  unfolding get_reader remove Handed
  get_reader_idx-cases choice i pp pp' {r} e = elim (Option-cases (find i (pipes pp.ready))) [
    | inl n ↦ inl (ground arith, ground arith)
    | inr (p, n) ↦
        let (q, c) = find-some i (pipes pp.ready) n in
        inr (p, ground arith, ground arith, ground arith)
  ]

  pub get_reader_any-cases :
      (choice n : ℕ) (pp pp' : PipePool P D) {r : Option (Pipe P D)}
      → get_reader choice pp (negsuc n) ≡ returns pp' r
      → Handed pp pp' pp.wait_idx r
  unfolding get_reader Handed
  get_reader_any-cases choice n pp pp' {r} e = elim (pop-cases choice (pipes pp.ready)) [
    | inl (q, _) ↦ inl (ground arith, ground arith)
    | inr (p, q, c) ↦ inr (p, ground arith, c, ground arith)
  ]

  Handed-Inv :
      (pp pp' : PipePool P D) (w : ℤ) (r : Option (Pipe P D)) → Handed pp pp' w r → Inv pp → Inv pp'
  unfolding Handed
  Handed-Inv pp pp' w r (inl (_, q)) v = rw q (nothing-Inv pp w v)
  Handed-Inv pp pp' w r (inr (p, _, n, q)) v = rw q (hand_over-Inv pp p w n v)

  pub get_reader-Inv :
      (choice : ℕ) (idx : ℤ) (pp pp' : PipePool P D) {r : Option (Pipe P D)}
      → get_reader choice pp idx ≡ returns pp' r
      → Inv pp
      → Inv pp'
  get_reader-Inv choice (pos i) pp pp' {r} e v =
      Handed-Inv pp pp' (negsuc 0) r (get_reader_idx-cases choice i pp pp' {r = r} e) v
  get_reader-Inv choice (negsuc n) pp pp' {r} e v =
      Handed-Inv pp pp' pp.wait_idx r (get_reader_any-cases choice n pp pp' {r = r} e) v
