-- ===== src/Wrapper/Index/Ownership.antt =====
-- No call on an index frees a structure twice.
use goxz.Base.{
  ap, ℕ, zero, suc, ◌+◌, ◌≤◌, ◌≡◌, ◌≢◌, refl, arith, List, [], ◌∷◌, ◌++◌, Option, none, some, ◌==◌,
  if◌then◌else◌,
}
use goxz.Wrapper.Index.{
  IndexLib, World, no_index, Cells, load, store, remove, free, pointer, set_pointer, adopt, release,
  decoder_stores, update,
}

-- Whether a field is the address, as a number.
abbrev one : ℕ → Option ℕ → ℕ
one p none = 0
one p (some q) = if q == p then 1 else 0

-- How many objects hold an address, and how often it is allocated.
pub owners : ℕ → List (Option ℕ) → ℕ
owners p [] = 0
owners p (q ∷ qs) = one p q + owners p qs

pub alive : {C : Type 0} → ℕ → Cells C → ℕ
alive p [] = 0
alive p ((q, c) ∷ cells) = (if q == p then 1 else 0) + alive p cells

owners-set_none :
    (p : ℕ) (qs : List (Option ℕ)) (i : ℕ)
    → owners p (set_pointer qs i none) + one p (pointer qs i) ≡ owners p qs
unfolding owners set_pointer pointer
owners-set_none p [] i = refl
owners-set_none p (q ∷ qs) zero = omega arith
owners-set_none p (q ∷ qs) (suc i) = omega (arith, owners-set_none p qs i)

owners-set_some :
    (p : ℕ) (qs : List (Option ℕ)) (i r : ℕ)
    → owners p (set_pointer qs i (some r)) ≤ owners p qs + (if r == p then 1 else 0)
unfolding owners set_pointer
owners-set_some p [] i r = omega arith
owners-set_some p (q ∷ qs) zero r = omega arith
owners-set_some p (q ∷ qs) (suc i) r = omega (arith, owners-set_some p qs i r)

owners-append :
    (p : ℕ) (qs : List (Option ℕ)) (r : ℕ)
    → owners p (qs ++ some r ∷ []) ≡ owners p qs + (if r == p then 1 else 0)
unfolding owners
owners-append p [] r = omega arith
owners-append p (q ∷ qs) r = omega (arith, owners-append p qs r)

owners-pointer : (p : ℕ) (qs : List (Option ℕ)) (i : ℕ) → pointer qs i ≡ some p → 1 ≤ owners p qs
unfolding owners pointer
owners-pointer p [] i h = absurd (ground arith)
owners-pointer p (q ∷ qs) zero h = ground arith
owners-pointer p (q ∷ qs) (suc i) h = omega (arith, owners-pointer p qs i h)

module _ {C : Type 0} where
  alive-store :
      (r p : ℕ) (c : Option C) (cells : Cells C) → alive r (store p c cells) ≡ alive r cells
  unfolding alive store
  alive-store r p none cells = refl
  alive-store r p (some c) [] = refl
  alive-store r p (some c) ((q, d) ∷ cells) = ground (arith, alive-store r p (some c) cells)

  alive-remove :
      (r p : ℕ) (cells : Cells C)
      → 1 ≤ alive p cells
      → alive r (remove p cells) + (if p == r then 1 else 0) ≡ alive r cells
  unfolding alive remove
  alive-remove r p [] h = absurd (omega arith)
  alive-remove r p ((q, d) ∷ cells) h = ground (arith, alive-remove r p cells)

  load-alive : (p : ℕ) (cells : Cells C) → 1 ≤ alive p cells → load p cells ≢ none
  unfolding alive load
  load-alive p [] h n = absurd (omega arith)
  load-alive p ((q, d) ∷ cells) h n = ground (arith, load-alive p cells)

  free_lem : (p : ℕ) (cells : Cells C) → 1 ≤ alive p cells → free p cells ≡ some (remove p cells)
  unfolding free
  free_lem p cells h = ground (arith, load-alive p cells h)

module _ (api : IndexLib) where
  -- An address is held by one object at most, and only while it is allocated.
  pub record IsOwned (w : World api) : Type 0 where
    pub owned : (p : ℕ) → owners p w.objects ≤ alive p w.cells
    pub single : (p : ℕ) → alive p w.cells ≤ 1
    pub fresh : (p : ℕ) → w.next ≤ p → alive p w.cells ≡ 0

  pub adopt-IsOwned : (w : World api) (c : api.CIndex) → IsOwned w → IsOwned (adopt api w c)
  unfolding adopt alive
  adopt-IsOwned w c v = record {
    owned = λ p. omega (arith, owners-append p w.objects w.next, v.owned p);
    single = λ p. ground (arith, v.single p, v.fresh p);
    fresh = λ p h. ground (arith, v.fresh p);
  }

  store-IsOwned :
      (w : World api) (p : ℕ) (c : Option api.CIndex)
      → IsOwned w
      → IsOwned (record w { cells = store p c w.cells })
  store-IsOwned w p c v = record {
    owned = λ r. omega (arith, alive-store r p c w.cells, v.owned r);
    single = λ r. omega (arith, alive-store r p c w.cells, v.single r);
    fresh = λ r h. omega (arith, alive-store r p c w.cells, v.fresh r h);
  }

  updated-IsOwned :
      (w : World api) (q : Option ℕ) (c : Option api.CIndex)
      → IsOwned w
      → IsOwned (elim q as (λ _. World api) [
        | none ↦ w
        | some p ↦ record w { cells = store p c w.cells }
      ])
  updated-IsOwned w none c v = v
  updated-IsOwned w (some p) c v = store-IsOwned w p c v

  pub update-IsOwned :
      (w : World api) (i : ℕ) (r : ℕ × Option api.CIndex) → IsOwned w → IsOwned (update api w i r).0
  unfolding update
  update-IsOwned w i r v = updated-IsOwned w (pointer w.objects i) r.1 v

  release-none :
      (w : World api) (i : ℕ)
      → pointer w.objects i ≡ none
      → IsOwned w
      → IsOwned (record w { objects = set_pointer w.objects i none })
  release-none w i h v = record {
    owned = λ p. omega (arith, owners-set_none p w.objects i, v.owned p);
    single = v.single;
    fresh = v.fresh;
  }

  release-some :
      (w : World api) (i p : ℕ)
      → pointer w.objects i ≡ some p
      → IsOwned w
      → IsOwned (record w { objects = set_pointer w.objects i none; cells = remove p w.cells })
  release-some w i p h v =
      let held = owners-pointer p w.objects i h in
      let live : 1 ≤ alive p w.cells = omega (arith, v.owned p) in
      record {
        owned = λ r.
            let e : one r (pointer w.objects i) ≡ one r (some p) = ap (one r) h in
            omega
              (arith, owners-set_none r w.objects i, alive-remove r p w.cells live, v.owned r, e);
        single = λ r. omega (arith, alive-remove r p w.cells live, v.single r);
        fresh = λ r k. omega (arith, alive-remove r p w.cells live, v.fresh r k);
      }

  -- Freeing the structure of an object is never a double free.
  released-IsOwned :
      (w : World api) (i : ℕ) (q : Option ℕ)
      → pointer w.objects i ≡ q
      → IsOwned w
      → (w' : World api) × (release api w i ≡ some w') × IsOwned w'
  unfolding release
  released-IsOwned w i none h v =
      (record w { objects = set_pointer w.objects i none }, rw (release, h), release-none w i h v)
  released-IsOwned w i (some p) h v =
      let live : 1 ≤ alive p w.cells = omega (arith, v.owned p, owners-pointer p w.objects i h) in
      (
        record w { objects = set_pointer w.objects i none; cells = remove p w.cells },
        rw (release, h, free_lem p w.cells live),
        release-some w i p h v,
      )

  pub release-IsOwned :
      (w : World api) (i : ℕ)
      → IsOwned w
      → (w' : World api) × (release api w i ≡ some w') × IsOwned w'
  release-IsOwned w i v = released-IsOwned w i (pointer w.objects i) refl v

  pub decoder_stores-IsOwned :
      (w : World api) (i : ℕ) (c : api.CIndex) → IsOwned w → IsOwned (decoder_stores api w i c)
  unfolding decoder_stores alive
  decoder_stores-IsOwned w i c v = record {
    owned = λ p. omega (arith, owners-set_some p w.objects i w.next, v.owned p);
    single = λ p. ground (arith, v.single p, v.fresh p);
    fresh = λ p h. ground (arith, v.fresh p);
  }

  pub no_index-IsOwned : IsOwned (no_index api)
  unfolding owners alive
  no_index-IsOwned = record {
    owned = λ p. omega arith;
    single = λ p. omega arith;
    fresh = λ p h. refl;
  }
