-- ===== src/Base/Int.antt =====
-- Go's signed `int`, `int32`, `int64` and `time.Duration`: integers over the native numbers.
use Prim.Native.Nat.{◌-◌, ℕ, ◌≤◌}
use mathlib.Core.Path.{◌≡◌, refl}
use mathlib.Core.Bool.{Bool, true, false, ◌||◌}
use native.Mathlib.Omega.{arith}
use kurama.Base.Tests.{leb, if◌then◌else◌, ltb, ◌==◌}

-- `negsuc n` is -(n + 1).
pub data ℤ : Type 0 where
  pos : ℕ → ℤ
  negsuc : ℕ → ℤ

-- `a < b` on Go's signed integers.
abbrev pub ltz : ℤ → ℤ → Bool
ltz (pos a) (pos b) = ltb a b
ltz (pos a) (negsuc b) = false
ltz (negsuc a) (pos b) = true
ltz (negsuc a) (negsuc b) = ltb b a

-- `a == b` on Go's signed integers.
abbrev pub eqz : ℤ → ℤ → Bool
eqz (pos a) (pos b) = a == b
eqz (pos a) (negsuc b) = false
eqz (negsuc a) (pos b) = false
eqz (negsuc a) (negsuc b) = a == b

-- The value of an integer that a guard has shown to be non-negative.
abbrev pub to_ℕ : ℤ → ℕ
to_ℕ (pos n) = n
to_ℕ (negsuc n) = 0

-- A value between two non-negative bounds.
abbrev pub InRange : ℕ → ℕ → ℤ → Type 0
InRange lo hi (pos n) = (lo ≤ n) × (n ≤ hi)
InRange lo hi (negsuc n) = ⊥

-- The guard `z < lo || z > hi` of the validators.
abbrev pub outside : ℕ → ℕ → ℤ → Bool
outside lo hi z = ltz z (pos lo) || ltz (pos hi) z

pub outside-InRange : (lo hi : ℕ) (z : ℤ) → outside lo hi z ≡ false → InRange lo hi z
outside-InRange lo hi (pos n) h = ground arith
outside-InRange lo hi (negsuc n) h = ground arith

pub InRange-outside : (lo hi : ℕ) (z : ℤ) → InRange lo hi z → outside lo hi z ≡ false
InRange-outside lo hi (pos n) h = ground arith
InRange-outside lo hi (negsuc n) h = absurd h

pub InRange-to_ℕ : (lo hi : ℕ) (z : ℤ) → InRange lo hi z → z ≡ pos (to_ℕ z)
InRange-to_ℕ lo hi (pos n) h = refl
InRange-to_ℕ lo hi (negsuc n) h = absurd h

pub eqz→eq : (a b : ℤ) → eqz a b ≡ true → a ≡ b
eqz→eq (pos a) (pos b) h = ground arith
eqz→eq (pos a) (negsuc b) h = ground arith
eqz→eq (negsuc a) (pos b) h = ground arith
eqz→eq (negsuc a) (negsuc b) h = ground arith

pub eqz_refl : (a : ℤ) → eqz a a ≡ true
eqz_refl (pos a) = ground arith
eqz_refl (negsuc a) = ground arith

-- `b.Sub(a)` for two times: a negative duration if the clock went back.
abbrev pub elapsed : ℕ → ℕ → ℤ
elapsed a b = if leb a b then pos (b - a) else negsuc (a - b - 1)
