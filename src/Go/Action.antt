-- ===== src/Go/Action.antt =====
-- A call on a state that may panic: what it wrote before the panic stays written.
pub mod Keeps
pub mod Post
use goxz.Base.{◌≡◌, refl, ap, fun_ext}
use goxz.Go.Outcome.{Fault, Res, ok, fail}

abbrev pub Action : Type 0 → Type 0 → Type 0
Action S A = S → Res A × S

module _ {S A : Type 0} where
  abbrev pub pure : A → Action S A
  pure a s = (ok a, s)

  abbrev pub lift : Res A → Action S A
  lift m s = (m, s)

  abbrev pub gets : (S → A) → Action S A
  gets f s = (ok (f s), s)

  -- `defer`: the clean-up runs when the call returns and when it panics.
  unfoldable pub deferred : Action S A → (S → S) → Action S A
  deferred m clean s = let (r, s') = m s in (r, clean s')

abbrev pub modify : {S : Type 0} → (S → S) → Action S (Unit {0})
modify f s = (ok tt, f s)

-- What follows a call.
abbrev pub next : {S A B : Type 0} → (A → Action S B) → Res A × S → Res B × S
next k (ok a, s) = k a s
next k (fail f, s) = (fail f, s)

infixl 5 ◌>>=◌ ◌>>◌
unfoldable pub ◌>>=◌ : {S A B : Type 0} → Action S A → (A → Action S B) → Action S B
◌>>=◌ m k s = next k (m s)

abbrev pub ◌>>◌ : {S B : Type 0} → Action S (Unit {0}) → Action S B → Action S B
m >> k = m >>= λ _. k

-- A call that returns passes its result and its state on; one that panics ends the sequence.
pub bind-ok :
    {S A B : Type 0} (m : Action S A) (k : A → Action S B) (s s' : S) (a : A)
    → m s ≡ (ok a, s')
    → (m >>= k) s ≡ k a s'
unfolding ◌>>=◌
bind-ok m k s s' a h = ap (next k) h

pub bind-fail :
    {S A B : Type 0} (m : Action S A) (k : A → Action S B) (s s' : S) (f : Fault)
    → m s ≡ (fail f, s')
    → (m >>= k) s ≡ (fail f, s')
unfolding ◌>>=◌
bind-fail m k s s' f h = ap (next k) h

pub next-next :
    {S A B C : Type 0} (r : Res A × S) (k : A → Action S B) (l : B → Action S C)
    → next l (next k r) ≡ next (λ a s. next l (k a s)) r
next-next (ok a, s) k l = refl
next-next (fail f, s) k l = refl

pub bind_assoc :
    {S A B C : Type 0} (m : Action S A) (k : A → Action S B) (l : B → Action S C)
    → ((m >>= k) >>= l) ≡ (m >>= λ a. k a >>= l)
unfolding ◌>>=◌
bind_assoc m k l = fun_ext λ s. next-next (m s) k l
