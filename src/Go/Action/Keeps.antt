-- ===== src/Go/Action/Keeps.antt =====
-- Calls that leave a part of the state as it is, panic or not.
use goxz.Base.{◌≡◌, refl, ◌∙◌, Bool, true, false, if◌then◌else◌}
use goxz.Go.Outcome.{Res, ok, fail}
use goxz.Go.Action.{Action, deferred, next, ◌>>=◌}

module _ {S T : Type 0} (part : S → T) where
  abbrev pub Keeps : {A : Type 0} → Action S A → Type 0
  Keeps m = (s : S) → part (m s).1 ≡ part s

  after :
      {A B : Type 0} (r : Res A × S) (k : A → Action S B)
      → ((a : A) → Keeps (k a))
      → part (next k r).1 ≡ part r.1
  after (ok a, s) k h = h a s
  after (fail f, s) k h = refl

  pub bind-Keeps :
      {A B : Type 0} (m : Action S A) (k : A → Action S B)
      → Keeps m
      → ((a : A) → Keeps (k a))
      → Keeps (m >>= k)
  unfolding ◌>>=◌
  bind-Keeps m k hm hk s = after (m s) k hk ∙ hm s

  pub deferred-Keeps :
      {A : Type 0} (m : Action S A) (clean : S → S)
      → Keeps m
      → ((s : S) → part (clean s) ≡ part s)
      → Keeps (deferred m clean)
  unfolding deferred
  deferred-Keeps m clean hm hc s = hc (m s).1 ∙ hm s

  pub if-Keeps :
      {A : Type 0} (b : Bool) (m n : Action S A) → Keeps m → Keeps n → Keeps (if b then m else n)
  if-Keeps true m n hm hn = hm
  if-Keeps false m n hm hn = hn
