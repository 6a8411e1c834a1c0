-- ===== src/Base/Strings.antt =====
-- Go's `string` and `[]byte`: lists of byte values, and the functions of package `strings` that
-- the program calls.
use Prim.Native.Nat.{ℕ, ◌+◌}
use Prim.Native.Char.{code}
use Prim.Native.String.{String}
use mathlib.Core.Path.{◌≡◌, refl}
use mathlib.Core.Logic.{◌↔◌}
use mathlib.Core.Bool.{Bool, true, false, ◌&&◌, ◌||◌}
use mathlib.Core.List.{List, [], ◌∷◌, ◌++◌}
use native.Mathlib.Omega.{arith}
use kurama.Base.Tests.{leb, ◌==◌, if◌then◌else◌}

abbrev pub Bytes : Type 0
Bytes = List ℕ

-- The bytes of an ASCII literal.
abbrev pub codes : String → Bytes
codes String.[] = []
codes (String.◌∷◌ c s) = code c ∷ codes s

-- `a == b` on strings.
unfoldable pub eqs : Bytes → Bytes → Bool
eqs [] [] = true
eqs [] (y ∷ ys) = false
eqs (x ∷ xs) [] = false
eqs (x ∷ xs) (y ∷ ys) = (x == y) && eqs xs ys

pub eqs→eq : (a b : Bytes) → eqs a b ≡ true → a ≡ b
unfolding eqs
eqs→eq [] [] h = refl
eqs→eq [] (y ∷ ys) h = ground arith
eqs→eq (x ∷ xs) [] h = ground arith
eqs→eq (x ∷ xs) (y ∷ ys) h = ground (arith, eqs→eq xs ys)

pub eqs_refl : (a : Bytes) → eqs a a ≡ true
unfolding eqs
eqs_refl [] = refl
eqs_refl (x ∷ xs) = ground (arith, eqs_refl xs)

pub eqs_iff : (a b : Bytes) → (eqs a b ≡ true) ↔ (a ≡ b)
eqs_iff a b = (eqs→eq a b, λ e. rw e (eqs_refl b))

-- `strings.HasPrefix(s, p)`, with the prefix first.
unfoldable pub has_prefix : Bytes → Bytes → Bool
has_prefix [] s = true
has_prefix (p ∷ ps) [] = false
has_prefix (p ∷ ps) (x ∷ xs) = (p == x) && has_prefix ps xs

pub has_prefix-append : (p s : Bytes) → has_prefix p (p ++ s) ≡ true
unfolding has_prefix
has_prefix-append [] s = refl
has_prefix-append (p ∷ ps) s = ground (arith, has_prefix-append ps s)

-- A byte occurs in a string.
unfoldable pub has_byte : ℕ → Bytes → Bool
has_byte b [] = false
has_byte b (x ∷ xs) = (x == b) || has_byte b xs

pub has_byte-append : (b : ℕ) (s t : Bytes) → has_byte b (s ++ t) ≡ (has_byte b s || has_byte b t)
unfolding has_byte
has_byte-append b [] t = refl
has_byte-append b (x ∷ s) t = ground (arith, has_byte-append b s t)

-- `strings.ContainsAny(s, chars)`, for a set of ASCII characters.
unfoldable pub contains_any : Bytes → Bytes → Bool
unfolding has_byte
contains_any [] chars = false
contains_any (x ∷ xs) chars = has_byte x chars || contains_any xs chars

-- `strings.Contains(s, sub)`.
unfoldable pub contains : Bytes → Bytes → Bool
unfolding has_prefix
contains [] sub = has_prefix sub []
contains (x ∷ xs) sub = has_prefix sub (x ∷ xs) || contains xs sub

unfoldable pub lower_byte : ℕ → ℕ
lower_byte c = if leb b'A' c && leb c b'Z' then c + 32 else c

-- `strings.ToLower`, on ASCII.
unfoldable pub to_lower : Bytes → Bytes
unfolding lower_byte
to_lower [] = []
to_lower (x ∷ xs) = lower_byte x ∷ to_lower xs

-- A name is in a list of names.
unfoldable pub elem : Bytes → List Bytes → Bool
unfolding eqs
elem k [] = false
elem k (x ∷ xs) = eqs k x || elem k xs
