-- ===== src/Go/Outcome.antt =====
-- Go's error values, and the outcome of a call that may panic.
use goxz.Base.{ap, ◌≡◌, refl, arith, ℕ, Bool, true, false, ◌||◌, List, [], ◌∷◌, ◌==◌}

-- The package io's errors, lib.Error with its code, and any other value of the interface `error`.
pub data Err : Type 0 where
  eof unexpected_eof short_write closed_pipe : Err
  lib : ℕ → Err
  other : ℕ → Err

-- Go's `==` on two values of the interface `error`.
abbrev pub eqb_err : Err → Err → Bool
eqb_err eof eof = true
eqb_err unexpected_eof unexpected_eof = true
eqb_err short_write short_write = true
eqb_err closed_pipe closed_pipe = true
eqb_err (lib a) (lib b) = a == b
eqb_err (other a) (other b) = a == b
eqb_err _ _ = false

abbrev pub elem_err : Err → List Err → Bool
elem_err e [] = false
elem_err e (x ∷ xs) = eqb_err e x || elem_err e xs

-- What a panic carries: an error value, or a nil one, a message of the program, an index, a nil
-- pointer or a closed channel that Go itself refuses. `stuck` is no Go value: a loop of the model
-- has used up its fuel.
pub data Fault : Type 0 where
  error : Err → Fault
  nil_error message bounds nil_pointer closed_channel stuck : Fault

pub data Res {ℓ} (A : Type ℓ) : Type ℓ where
  ok : A → Res A
  fail : Fault → Res A

-- A panic ends the sequence.
infixl 5 ◌>>=◌ ◌>>◌
abbrev pub ◌>>=◌ {ℓ κ} : {A : Type ℓ} {B : Type κ} → Res A → (A → Res B) → Res B
m >>= k = elim m [ ok a ↦ k a | fail x ↦ fail x ]

abbrev pub ◌>>◌ {κ} : {B : Type κ} → Res (Unit {0}) → Res B → Res B
check >> then_do = elim check [ ok _ ↦ then_do | fail x ↦ fail x ]

-- What comes before a success was a success.
pub ok-of-bind {ℓ κ} :
    {A : Type ℓ} {B : Type κ} (m : Res A) (k : A → Res B) {b : B}
    → (m >>= k) ≡ ok b
    → (a : A) × (m ≡ ok a) × (k a ≡ ok b)
ok-of-bind (fail x) k h = absurd (ground arith)
ok-of-bind (ok a) k h = (a, refl, h)

pub ok-inj {ℓ} : {A : Type ℓ} (a b : A) → ok a ≡ ok b → a ≡ b
ok-inj {A} a b e = ap (λ (m : Res A). elim m [ ok x ↦ x | fail f ↦ a ]) e
