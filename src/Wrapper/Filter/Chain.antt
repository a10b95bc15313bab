-- ===== src/Wrapper/Filter/Chain.antt =====
-- The filters that liblzma reads from the array, and those that were appended.
use goxz.Base.{
  ℕ, zero, suc, ◌+◌, ◌≤◌, ◌<◌, ◌≡◌, ◌≢◌, ◌⊎◌, inl, inr, refl, sym, ap, ◌∙◌, arith, subst, true,
  false, List, [], ◌∷◌, ◌++◌, length, map, replicate, length-replicate, length-append, append_assoc,
  append-nil, All, Option, none, some, ◌==◌, if◌then◌else◌,
}
use goxz.Base.Int.{ℤ, to_u64}
use goxz.Go.{bounds, nil_pointer, Res, ok, fail, ◌>>=◌}
use goxz.Go.Slice.{update_at}
use goxz.Liblzma.Consts.{Constants}
use goxz.Liblzma.Structs.{COptions, CFilter}
use goxz.Wrapper.Filter.{Filters, new_filters, append, pointer, terminator}

-- liblzma reads a filter array up to the first entry whose id is LZMA_VLI_UNKNOWN; an array without
-- such an entry is none.
pub chain : Constants → List CFilter → Option (List CFilter)
chain c [] = none
chain c (x ∷ xs) =
    let rest = chain c xs in
    if x.id == terminator c then some [] else elim rest [ none ↦ none | some ys ↦ some (x ∷ ys) ]

-- Calls of Append, one after another.
abbrev pub append_all : Constants → List (ℤ × Option COptions) → Filters → Res Filters
append_all c [] f = ok f
append_all c ((id, opts) ∷ fs) f = append c f id opts >>= append_all c fs

abbrev pub filter_of : ℤ × COptions → CFilter
filter_of (id, opts) = record { id = to_u64 id; options = some opts }

-- Arguments with options that are not nil.
abbrev pub with_options : List (ℤ × COptions) → List (ℤ × Option COptions)
with_options = map (λ x. (x.0, some x.1))

update_at-append {ℓ} :
    {A : Type ℓ} (xs : List A) (y : A) (ys : List A) (n : ℕ) (g : A → A)
    → n ≡ length xs
    → update_at (xs ++ y ∷ ys) n g ≡ ok (xs ++ g y ∷ ys)
unfolding update_at
update_at-append [] y ys zero g h = refl
update_at-append [] y ys (suc n) g h = absurd (omega arith)
update_at-append (x ∷ xs) y ys zero g h = absurd (omega arith)
update_at-append (x ∷ xs) y ys (suc n) g h = rw (update_at-append xs y ys n g (omega arith))

update_at-second {ℓ} :
    {A : Type ℓ} (xs : List A) (y z : A) (zs : List A) (n : ℕ) (g : A → A)
    → n ≡ length xs + 1
    → update_at (xs ++ y ∷ z ∷ zs) n g ≡ ok (xs ++ y ∷ g z ∷ zs)
unfolding update_at
update_at-second [] y z zs zero g h = absurd (omega arith)
update_at-second [] y z zs (suc zero) g h = refl
update_at-second [] y z zs (suc (suc n)) g h = absurd (omega arith)
update_at-second (x ∷ xs) y z zs zero g h = absurd (omega arith)
update_at-second (x ∷ xs) y z zs (suc n) g h = rw (update_at-second xs y z zs n g (omega arith))

update_at-bounds {ℓ} :
    {A : Type ℓ} (xs : List A) (n : ℕ) (g : A → A) → length xs ≤ n → update_at xs n g ≡ fail bounds
unfolding update_at
update_at-bounds [] n g h = refl
update_at-bounds (x ∷ xs) zero g h = absurd (omega arith)
update_at-bounds (x ∷ xs) (suc n) g h = rw (update_at-bounds xs n g (omega arith))

eq_self : (n : ℕ) → (n == n) ≡ true
eq_self n = ground arith

eq_other : (m n : ℕ) → m ≢ n → (m == n) ≡ false
eq_other m n h = ground arith

length-map {ℓ κ} :
    {A : Type ℓ} {B : Type κ} (f : A → B) (xs : List A) → length (map f xs) ≡ length xs
length-map f [] = refl
length-map f (x ∷ xs) = ap suc (length-map f xs)

-- The array: what was appended, the terminator, and the rest.
abbrev end_of : Constants → Option COptions → CFilter
end_of c o = record { id = terminator c; options = o }

abbrev holding :
    Constants → List CFilter → Option COptions → List CFilter → List (Option COptions) → Filters
holding c done o rest os = record {
  filters = done ++ end_of c o ∷ rest;
  options = os;
  size = length done;
}

chain_lem :
    (c : Constants) (done rest : List CFilter) (o : Option COptions)
    → All (λ (x : CFilter). x.id ≢ terminator c) done
    → chain c (done ++ end_of c o ∷ rest) ≡ some done
unfolding chain
chain_lem c [] rest o h = rw (eq_self (terminator c))
chain_lem c (x ∷ done) rest o (n, h) =
    rw (eq_other x.id (terminator c) n, chain_lem c done rest o h)

append-room :
    (c : Constants) (done rest : List CFilter) (o : Option COptions) (r : CFilter)
    (os : List (Option COptions)) (id : ℤ) (opts : COptions)
    → append c (holding c done o (r ∷ rest) os) id (some opts)
      ≡ ok (holding c (done ++ filter_of (id, opts) ∷ []) r.options rest (os ++ some opts ∷ []))
unfolding append pointer
append-room c done rest o r os id opts =
    let second =
      update_at-second done (end_of c o) r rest (length done + 1)
        (λ slot. record slot { id = terminator c }) (omega arith) in
    let first =
      update_at-append done (end_of c o) (end_of c r.options ∷ rest) (length done)
        (λ slot. record slot { id = to_u64 id }) refl in
    let third =
      update_at-append done (record { id = to_u64 id; options = o }) (end_of c r.options ∷ rest)
        (length done) (λ slot. record slot { options = some opts }) refl in
    let p = sym (append_assoc done (filter_of (id, opts) ∷ []) (end_of c r.options ∷ rest)) in
    let q : length done + 1 ≡ length (done ++ filter_of (id, opts) ∷ []) =
      omega (arith, length-append done (filter_of (id, opts) ∷ [])) in
    rw (second, first, third)
      (λ i. ok (record { filters = p i; options = os ++ some opts ∷ []; size = q i }))

append-nil_options :
    (c : Constants) (done rest : List CFilter) (o : Option COptions) (r : CFilter)
    (os : List (Option COptions)) (id : ℤ)
    → append c (holding c done o (r ∷ rest) os) id none ≡ fail nil_pointer
unfolding append pointer
append-nil_options c done rest o r os id =
    let second =
      update_at-second done (end_of c o) r rest (length done + 1)
        (λ slot. record slot { id = terminator c }) (omega arith) in
    let first =
      update_at-append done (end_of c o) (end_of c r.options ∷ rest) (length done)
        (λ slot. record slot { id = to_u64 id }) refl in
    rw (second, first) refl

append-full :
    (c : Constants) (done : List CFilter) (o : Option COptions) (os : List (Option COptions))
    (id : ℤ) (opts : Option COptions)
    → append c (holding c done o [] os) id opts ≡ fail bounds
unfolding append
append-full c done o os id opts =
    let none_there =
      update_at-bounds (done ++ end_of c o ∷ []) (length done + 1)
        (λ slot. record slot { id = terminator c })
        (omega (arith, length-append done (end_of c o ∷ []))) in
    rw none_there

-- What calls with `room` free places come to, on the filters `f`.
abbrev Fills :
    Constants
    → List (ℤ × Option COptions)
    → ℕ
    → Filters
    → (List (ℤ × COptions) → Filters → Type 0)
    → Type 0
Fills c fs room f Q =
    ((gs : List (ℤ × COptions)) × (f' : Filters) × (fs ≡ with_options gs)
      × (length gs ≤ room)
      × (append_all c fs f ≡ ok f')
      × Q gs f')
    ⊎ (((gs : List (ℤ × COptions)) × (x : ℤ × Option COptions) × (xs : List (ℤ × Option COptions))
          × (fs ≡ with_options gs ++ x ∷ xs)
          × (length gs ≡ room)
          × (append_all c fs f ≡ fail bounds))
        ⊎ ((gs : List (ℤ × COptions)) × (id : ℤ) × (xs : List (ℤ × Option COptions)) × (fs
              ≡ with_options gs ++ (id, none) ∷ xs)
            × (length gs < room)
            × (append_all c fs f ≡ fail nil_pointer)))

abbrev Holds : Constants → List CFilter → List (ℤ × COptions) → Filters → Type 0
Holds c done gs f =
    (o : Option COptions) × (rest : List CFilter) × (os : List (Option COptions)) × (f
      ≡ holding c (done ++ map filter_of gs) o rest os)

filled :
    (c : Constants) (fs : List (ℤ × Option COptions)) (done rest : List CFilter)
    (o : Option COptions) (os : List (Option COptions))
    → Fills c fs (length rest) (holding c done o rest os) (Holds c done)
filled c [] done rest o os = inl (
  [],
  _,
  refl,
  omega arith,
  refl,
  (o, rest, os, ap (λ l. holding c l o rest os) (sym (append-nil done))),
)
filled c (x ∷ fs) done [] o os =
    inr (inl ([], x, fs, refl, refl, rw (append-full c done o os x.0 x.1)))
filled c ((id, none) ∷ fs) done (r ∷ rest) o os =
    inr (inr ([], id, fs, refl, omega arith, rw (append-nil_options c done rest o r os id)))
filled c ((id, some opts) ∷ fs) done (r ∷ rest) o os =
    let first = append-room c done rest o r os id opts in
    let same = append_assoc done (filter_of (id, opts) ∷ []) in
    elim (filled c fs (done ++ filter_of (id, opts) ∷ []) rest r.options (os ++ some opts ∷ [])) [
      | inl (gs, f, p, l, e, (o', rest', os', q)) ↦ inl (
        (id, opts) ∷ gs,
        f,
        ap (◌∷◌ (id, some opts)) p,
        omega arith,
        rw first e,
        (o', rest', os', q ∙ ap (λ l. holding c l o' rest' os') (same (map filter_of gs))),
      )
      | inr (inl (gs, x, xs, p, l, e)) ↦
          inr (inl ((id, opts) ∷ gs, x, xs, ap (◌∷◌ (id, some opts)) p, omega arith, rw first e))
      | inr (inr (gs, i, xs, p, l, e)) ↦
          inr (inr ((id, opts) ∷ gs, i, xs, ap (◌∷◌ (id, some opts)) p, omega arith, rw first e))
    ]

abbrev Named : Constants → List (ℤ × Option COptions) → Type 0
Named c = All (λ (x : ℤ × Option COptions). to_u64 x.0 ≢ terminator c)

Named-All :
    (c : Constants) (gs : List (ℤ × COptions))
    → Named c (with_options gs)
    → All (λ (x : CFilter). x.id ≢ terminator c) (map filter_of gs)
Named-All c [] h = tt
Named-All c (g ∷ gs) (n, h) = (n, Named-All c gs h)

-- Calls of Append on new Filters, for ids that are not LZMA_VLI_UNKNOWN. Either all of them have
-- options and there are at most LZMA_FILTERS_MAX: then all succeed, and liblzma reads from the array
-- just the filters that were appended, in order. Or LZMA_FILTERS_MAX calls with options come first,
-- and the next one panics on an index out of range. Or a call with nil options comes while there is
-- room, after calls with options only, and it panics on the nil pointer.
pub append_all-chain :
    (c : Constants) (fs : List (ℤ × Option COptions))
    → All (λ (x : ℤ × Option COptions). to_u64 x.0 ≢ terminator c) fs
    → ((gs : List (ℤ × COptions)) × (f : Filters) × (fs ≡ with_options gs)
        × (length gs ≤ c.lzma_filters_max)
        × (append_all c fs (new_filters c) ≡ ok f)
        × (chain c f.filters ≡ some (map filter_of gs))
        × (f.size ≡ length gs))
      ⊎ (((gs : List (ℤ × COptions)) × (x : ℤ × Option COptions) × (xs : List (ℤ × Option COptions))
            × (fs ≡ with_options gs ++ x ∷ xs)
            × (length gs ≡ c.lzma_filters_max)
            × (append_all c fs (new_filters c) ≡ fail bounds))
          ⊎ ((gs : List (ℤ × COptions)) × (id : ℤ) × (xs : List (ℤ × Option COptions)) × (fs
                ≡ with_options gs ++ (id, none) ∷ xs)
              × (length gs < c.lzma_filters_max)
              × (append_all c fs (new_filters c) ≡ fail nil_pointer)))
unfolding new_filters
append_all-chain c fs h =
    let blank : CFilter = record { id = 0; options = none } in
    let free = length-replicate c.lzma_filters_max blank in
    elim (filled c fs [] (replicate c.lzma_filters_max blank) none []) [
      | inl (gs, f, p, l, e, (o, rest, os, q)) ↦ inl (
        gs,
        f,
        p,
        omega (arith, free),
        e,
        ap (λ (y : Filters). chain c y.filters) q
            ∙ chain_lem c (map filter_of gs) rest o (Named-All c gs (subst (Named c) p h)),
        ap (λ (y : Filters). y.size) q ∙ length-map filter_of gs,
      )
      | inr (inl (gs, x, xs, p, l, e)) ↦ inr (inl (gs, x, xs, p, omega (arith, free), e))
      | inr (inr (gs, i, xs, p, l, e)) ↦ inr (inr (gs, i, xs, p, omega (arith, free), e))
    ]
