-- ===== src/RedisKey/Split.antt =====
-- A text is cut at its first colon in one way only.
use kurama.Base.{Bytes, has_prefix, has_byte, ◌≡◌, refl, true, false, [], ◌∷◌, ◌++◌, arith}
use kurama.RedisKey.{separator}

abbrev pub IsColonFree : Bytes → Type 0
IsColonFree a = has_byte separator a ≡ false

-- Two texts that agree up to a colon agree in the part before it, and then in the rest.
pub split_eq :
    (a b p q : Bytes)
    → IsColonFree a
    → IsColonFree b
    → a ++ (separator ∷ p) ≡ b ++ (separator ∷ q)
    → (a ≡ b) × (p ≡ q)
unfolding has_byte
split_eq [] [] p q h k e = ground (arith, e)
split_eq [] (y ∷ b) p q h k e = ground (arith, e)
split_eq (x ∷ a) [] p q h k e = ground (arith, e)
split_eq (x ∷ a) (y ∷ b) p q h k e = ground (arith, e, split_eq a b p q)

pub split_prefix :
    (a b p q : Bytes)
    → IsColonFree a
    → IsColonFree b
    → has_prefix (a ++ (separator ∷ p)) (b ++ (separator ∷ q)) ≡ true
    → (a ≡ b) × (has_prefix p q ≡ true)
unfolding has_byte has_prefix
split_prefix [] [] p q h k e = ground arith
split_prefix [] (y ∷ b) p q h k e = ground arith
split_prefix (x ∷ a) [] p q h k e = ground arith
split_prefix (x ∷ a) (y ∷ b) p q h k e = ground (arith, split_prefix a b p q)

-- A text with more colons than fields cannot be a prefix of the last field.
pub no_prefix : (a b p : Bytes) → IsColonFree b → has_prefix (a ++ (separator ∷ p)) b ≡ false
unfolding has_byte has_prefix
no_prefix [] [] p k = refl
no_prefix [] (y ∷ b) p k = ground arith
no_prefix (x ∷ a) [] p k = refl
no_prefix (x ∷ a) (y ∷ b) p k = ground (arith, no_prefix a b p)
