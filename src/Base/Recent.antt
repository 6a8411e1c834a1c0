-- ===== src/Base/Recent.antt =====
-- The most recent entries of a list, and lists written in place as rings.
use Prim.Native.Nat.{ℕ, zero, suc, ◌+◌, ◌-◌, ◌%◌, ◌≤◌, ◌<◌}
use mathlib.Core.Path.{◌≡◌, refl, ap, ◌∙◌, sym}
use mathlib.Core.List.{List, [], ◌∷◌, ◌++◌, append_assoc, append-nil}
use native.Mathlib.Nat.{mod_self}
use native.Mathlib.Omega.{arith}
use native.Mathlib.Decide.{dec_lt}
use kurama.Base.Lists.{
  length, set, take, drop, length-append, length-drop, length-take, length-set, drop_all,
}

module _ {ℓ} {A : Type ℓ} where
  -- The last `n` entries.
  abbrev pub last : ℕ → List A → List A
  last n xs = drop (length xs - n) xs

  -- The oldest entry of a ring stands at `next`.
  abbrev pub unroll : ℕ → List A → List A
  unroll next xs = drop next xs ++ take next xs

inner_mod : (n i : ℕ) → suc i < n → (i + 1) % n ≡ suc i
inner_mod n i h = grind arith

outer_mod : (n i : ℕ) → suc i ≡ n → (i + 1) % n ≡ 0
outer_mod n i h = let e : i + 1 ≡ n = omega arith in rw e (mod_self n)

module _ {ℓ} {A : Type ℓ} where
  pub take-set :
      (xs : List A) (i : ℕ) (v : A)
      → i < length xs
      → take (suc i) (set xs i v) ≡ take i xs ++ (v ∷ [])
  take-set [] i v h = absurd (omega arith)
  take-set (x ∷ xs) zero v h = refl
  take-set (x ∷ xs) (suc i) v h = ap (◌∷◌ x) (take-set xs i v (omega arith))

  pub drop-set : (xs : List A) (i : ℕ) (v : A) → drop (suc i) (set xs i v) ≡ drop (suc i) xs
  drop-set [] i v = refl
  drop-set (x ∷ xs) zero v = refl
  drop-set (x ∷ xs) (suc i) v = drop-set xs i v

  pub take_all : (n : ℕ) (xs : List A) → length xs ≤ n → take n xs ≡ xs
  take_all zero [] h = refl
  take_all zero (x ∷ xs) h = absurd (omega arith)
  take_all (suc n) [] h = refl
  take_all (suc n) (x ∷ xs) h = ap (◌∷◌ x) (take_all n xs (omega arith))

  pub drop-drop-append :
      (i : ℕ) (xs ys : List A) → i < length xs → drop 1 (drop i xs ++ ys) ≡ drop (suc i) xs ++ ys
  drop-drop-append i [] ys h = absurd (omega arith)
  drop-drop-append zero (x ∷ xs) ys h = refl
  drop-drop-append (suc i) (x ∷ xs) ys h = drop-drop-append i xs ys (omega arith)

  pub drop-append : (n : ℕ) (xs ys : List A) → n ≤ length xs → drop n (xs ++ ys) ≡ drop n xs ++ ys
  drop-append zero xs ys h = refl
  drop-append (suc n) [] ys h = absurd (omega arith)
  drop-append (suc n) (x ∷ xs) ys h = drop-append n xs ys (omega arith)

  drop-nil : (m : ℕ) → drop {A = A} m [] ≡ []
  drop-nil zero = refl
  drop-nil (suc m) = refl

  pub drop-drop : (m n k : ℕ) (xs : List A) → k ≡ n + m → drop m (drop n xs) ≡ drop k xs
  drop-drop m zero k xs e = ap (λ j. drop j xs) (omega arith)
  drop-drop m (suc n) k [] e = drop-nil m ∙ sym (drop-nil k)
  drop-drop m (suc n) zero (x ∷ xs) e = absurd (omega arith)
  drop-drop m (suc n) (suc k) (x ∷ xs) e = drop-drop m n k xs (omega arith)

  pub length-unroll : (i : ℕ) (xs : List A) → i ≤ length xs → length (unroll i xs) ≡ length xs
  length-unroll i xs h =
      omega (arith, length-append (drop i xs) (take i xs), length-drop i xs, length-take i xs)

  -- Forgetting old entries early makes no difference.
  pub last-last-append : (n : ℕ) (xs ys : List A) → last n (last n xs ++ ys) ≡ last n (xs ++ ys)
  last-last-append n xs ys =
      let d = length xs - n in
      let e = drop-append d xs ys (omega arith) in
      rw (← e) (
        drop-drop (length (drop d (xs ++ ys)) - n) d (length (xs ++ ys) - n) (xs ++ ys)
          (omega (arith, length-drop d (xs ++ ys), length-append xs ys)))

  -- One entry more than a full ring holds: the oldest goes.
  last_of_full :
      (xs : List A) (i : ℕ) (v : A)
      → i < length xs
      → last (length xs) (unroll i xs ++ (v ∷ [])) ≡ drop (suc i) xs ++ (take i xs ++ (v ∷ []))
  last_of_full xs i v h =
      let one : length (unroll i xs ++ (v ∷ [])) - length xs ≡ 1 =
        omega (arith, length-append (unroll i xs) (v ∷ []), length-unroll i xs) in
      ap (λ k. drop k (unroll i xs ++ (v ∷ []))) one
      ∙ rw (append_assoc (drop i xs) (take i xs) (v ∷ []))
          (drop-drop-append i xs (take i xs ++ (v ∷ [])) h)

  inner_write :
      (xs : List A) (i : ℕ) (v : A)
      → i < length xs
      → unroll (suc i) (set xs i v) ≡ drop (suc i) xs ++ (take i xs ++ (v ∷ []))
  inner_write xs i v h = rw (drop-set xs i v, take-set xs i v h)

  final_write :
      (xs : List A) (i : ℕ) (v : A)
      → suc i ≡ length xs
      → unroll 0 (set xs i v) ≡ drop (suc i) xs ++ (take i xs ++ (v ∷ []))
  final_write xs i v h =
      append-nil (set xs i v)
      ∙ sym (take_all (suc i) (set xs i v) (omega (arith, length-set xs i v)))
      ∙ rw (take-set xs i v (omega arith), drop_all (suc i) xs (omega arith))

  -- Overwriting the oldest entry of a full ring drops it, and adds the new one as the newest.
  pub unroll-set :
      (xs : List A) (i : ℕ) (v : A)
      → i < length xs
      → unroll ((i + 1) % length xs) (set xs i v) ≡ last (length xs) (unroll i xs ++ (v ∷ []))
  unroll-set xs i v h = elim (dec_lt (suc i) (length xs)) [
    | yes inner ↦
        ap (λ k. unroll k (set xs i v)) (inner_mod (length xs) i inner)
        ∙ inner_write xs i v h
        ∙ sym (last_of_full xs i v h)
    | no outer ↦
        ap (λ k. unroll k (set xs i v)) (outer_mod (length xs) i (omega arith))
        ∙ final_write xs i v (omega arith)
        ∙ sym (last_of_full xs i v h)
  ]
