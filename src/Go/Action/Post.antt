-- ===== src/Go/Action/Post.antt =====
-- What holds after a call: of its result and the state where it returns, of the panic and the state
-- where it does not.
use goxz.Base.{◌≡◌, Bool, true, false, if◌then◌else◌}
use goxz.Go.Outcome.{Fault, Res, ok, fail}
use goxz.Go.Action.{Action, next, ◌>>=◌}

module _ {S : Type 0} (Panics : Fault → S → Type 0) where
  abbrev pub Post : {A : Type 0} → (A → S → Type 0) → Res A × S → Type 0
  Post Q (ok a, s) = Q a s
  Post Q (fail f, s) = Panics f s

  next-Post :
      {A B : Type 0} (Q : A → S → Type 0) (T : B → S → Type 0) (r : Res A × S) (k : A → Action S B)
      → Post Q r
      → ((a : A) (s : S) → Q a s → Post T (k a s))
      → Post T (next k r)
  next-Post Q T (ok a, s) k h hk = hk a s h
  next-Post Q T (fail f, s) k h hk = h

  -- A sequence, by what holds between its two calls.
  pub bind-Post :
      {A B : Type 0} (Q : A → S → Type 0) (T : B → S → Type 0) (m : Action S A) (k : A → Action S B)
      (s : S)
      → Post Q (m s)
      → ((a : A) (s : S) → Q a s → Post T (k a s))
      → Post T ((m >>= k) s)
  unfolding ◌>>=◌
  bind-Post Q T m k s h hk = next-Post Q T (m s) k h hk

  pub if-Post :
      {A : Type 0} (Q : A → S → Type 0) (b : Bool) (m n : Action S A) (s : S)
      → (b ≡ true → Post Q (m s))
      → (b ≡ false → Post Q (n s))
      → Post Q ((if b then m else n) s)
  if-Post Q true m n s hm hn = hm (λ i. true)
  if-Post Q false m n s hm hn = hn (λ i. false)
