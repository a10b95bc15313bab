-- ===== src/Base/Int.antt =====
-- Go's int and int64 as integers over the native numbers: each operation wraps to 64 bits.
use goxz.Base.{
  ℕ, suc, ◌+◌, ◌-◌, ◌*◌, ◌/◌, ◌%◌, ◌^◌, ◌≤◌, ◌<◌, ◌≡◌, Bool, arith, ltb, leb, ◌==◌, true,
  if◌then◌else◌,
}

-- `negsuc n` is -(n + 1).
pub data ℤ : Type 0 where
  pos : ℕ → ℤ
  negsuc : ℕ → ℤ

abbrev pos_part : ℤ → ℕ
pos_part (pos n) = n
pos_part (negsuc n) = 0

abbrev neg_part : ℤ → ℕ
neg_part (pos n) = 0
neg_part (negsuc n) = suc n

-- a - b, as an integer.
abbrev sub_ℕ : ℕ → ℕ → ℤ
sub_ℕ a b = if leb b a then pos (a - b) else negsuc (b - a - 1)

infix 50 ◌==ℤ◌
abbrev pub ◌==ℤ◌ : ℤ → ℤ → Bool
a ==ℤ b = (pos_part a + neg_part b) == (pos_part b + neg_part a)

abbrev pub ltb_ℤ : ℤ → ℤ → Bool
ltb_ℤ a b = ltb (pos_part a + neg_part b) (pos_part b + neg_part a)

abbrev u64_mod : ℕ
u64_mod = 2 ^ 64

-- The conversion of an int64 to uint64: the bit pattern.
unfoldable pub to_u64 : ℤ → ℕ
to_u64 (pos n) = n % u64_mod
to_u64 (negsuc n) = u64_mod - 1 - n % u64_mod

-- The conversion of a uint64 to int64.
pub of_u64 : ℕ → ℤ
of_u64 w = if ltb w (2 ^ 63) then pos w else negsuc (u64_mod - 1 - w)

-- What 64 bits keep of an integer.
wrap64 : ℤ → ℤ
unfolding to_u64 of_u64
wrap64 a = of_u64 (to_u64 a)

infixl 65 ◌+ℤ◌ ◌-ℤ◌
infixl 70 ◌*ℤ◌ ◌/ℤ◌ ◌%ℤ◌
unfoldable pub ◌+ℤ◌ : ℤ → ℤ → ℤ
unfolding wrap64
a +ℤ b = wrap64 (sub_ℕ (pos_part a + pos_part b) (neg_part a + neg_part b))

unfoldable pub ◌-ℤ◌ : ℤ → ℤ → ℤ
unfolding wrap64
a -ℤ b = wrap64 (sub_ℕ (pos_part a + neg_part b) (neg_part a + pos_part b))

unfoldable pub ◌*ℤ◌ : ℤ → ℤ → ℤ
unfolding wrap64
a *ℤ b = wrap64 (
    sub_ℕ (pos_part a * pos_part b + neg_part a * neg_part b)
      (pos_part a * neg_part b + neg_part a * pos_part b))

-- Division and remainder by a positive constant; Go truncates towards zero.
unfoldable pub ◌/ℤ◌ : ℤ → ℕ → ℤ
a /ℤ d = sub_ℕ (pos_part a / d) (neg_part a / d)

unfoldable pub ◌%ℤ◌ : ℤ → ℕ → ℤ
a %ℤ d = sub_ℕ (pos_part a % d) (neg_part a % d)

abbrev pub IsInt64 : ℤ → Type 0
IsInt64 a = (pos_part a < 2 ^ 63) × (neg_part a ≤ 2 ^ 63)

pub of_u64-to_u64 : (a : ℤ) → IsInt64 a → of_u64 (to_u64 a) ≡ a
unfolding of_u64 to_u64
of_u64-to_u64 (pos n) h = ground arith
of_u64-to_u64 (negsuc n) h = ground arith

-- Where nothing wraps the operations are those of the numbers.
pub +ℤ-pos : (a b : ℕ) → a + b < 2 ^ 63 → pos a +ℤ pos b ≡ pos (a + b)
unfolding ◌+ℤ◌
+ℤ-pos a b h = ground arith

pub -ℤ-pos : (a b : ℕ) → b ≤ a → a < 2 ^ 63 → pos a -ℤ pos b ≡ pos (a - b)
unfolding ◌-ℤ◌
-ℤ-pos a b h k = ground arith

pub *ℤ-pos : (a b : ℕ) → a * b < 2 ^ 63 → pos a *ℤ pos b ≡ pos (a * b)
unfolding ◌*ℤ◌
*ℤ-pos a b h = ground arith

pub /ℤ-pos : (a d : ℕ) → 0 < d → pos a /ℤ d ≡ pos (a / d)
unfolding ◌/ℤ◌
/ℤ-pos a d h = ground arith

pub %ℤ-pos : (a d : ℕ) → 0 < d → pos a %ℤ d ≡ pos (a % d)
unfolding ◌%ℤ◌
%ℤ-pos a d h = ground arith

of_u64-pos : (n : ℕ) → n < 2 ^ 63 → of_u64 n ≡ pos n
unfolding of_u64
of_u64-pos n h = ground arith

pub ==ℤ→eq : (a b : ℤ) → (a ==ℤ b) ≡ true → a ≡ b
==ℤ→eq a b h = ground arith
