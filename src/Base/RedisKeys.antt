-- ===== src/Base/RedisKeys.antt =====
-- The Redis commands on lists and keys that the program calls. Redis is not part of the repository:
-- its state and commands are a parameter, with the documented effect of each command on the
-- elements of a list and on the deadline of a key.
use Prim.Native.Nat.{ℕ}
use mathlib.Core.Path.{◌≡◌, refl}
use mathlib.Core.Bool.{Bool, true, false, ◌&&◌}
use mathlib.Core.List.{List, [], ◌∷◌, ◌++◌}
use mathlib.Core.Option.{Option, none, some}
use kurama.Base.Tests.{if◌then◌else◌, ltb}
use kurama.Base.Recent.{last}
use kurama.Base.Strings.{Bytes, eqs}

pub record RedisLists : Type 1 where
  pub State : Type 0
  -- the elements of a list, oldest first; none for a key that is not there
  pub items : Bytes → State → List Bytes
  pub rpush : Bytes → Bytes → State → State
  -- LTRIM key -n -1; with 0 for n it keeps the whole list, from position 0 on
  pub ltrim_last : Bytes → ℕ → State → State
  -- whether the key is there
  pub present : Bytes → State → Bool
  -- when the key expires, in milliseconds from now
  pub ttl : Bytes → State → Option ℕ
  pub persist : Bytes → State → State
  pub expire_nx : Bytes → ℕ → State → State
  pub items-rpush :
      (k v : Bytes) (s : State) (j : Bytes)
      → items j (rpush k v s) ≡ (if eqs k j then items k s ++ (v ∷ []) else items j s)
  pub items-ltrim_last :
      (k : Bytes) (n : ℕ) (s : State) (j : Bytes)
      → items j (ltrim_last k n s)
        ≡ (if eqs k j then (if ltb 0 n then last n (items k s) else items k s) else items j s)
  pub ttl-persist :
      (k : Bytes) (s : State) (j : Bytes)
      → ttl j (persist k s) ≡ (if eqs k j then none else ttl j s)
  pub ttl-expire_nx :
      (k : Bytes) (t : ℕ) (s : State) (j : Bytes)
      → ttl j (expire_nx k t s) ≡ (
          if eqs k j && present k s
          then (elim (ttl k s) [ none ↦ some t | some old ↦ some old ])
          else ttl j s)
  pub present-persist : (k : Bytes) (s : State) (j : Bytes) → present j (persist k s) ≡ present j s
  pub present-expire_nx :
      (k : Bytes) (t : ℕ) (s : State) (j : Bytes) → present j (expire_nx k t s) ≡ present j s
  pub items-persist : (k : Bytes) (s : State) (j : Bytes) → items j (persist k s) ≡ items j s
  pub items-expire_nx :
      (k : Bytes) (t : ℕ) (s : State) (j : Bytes) → items j (expire_nx k t s) ≡ items j s

pub record Entry : Type 0 where
  pub elements : List Bytes
  pub deadline : Option ℕ

pub field_if {ℓ} :
    {B : Type ℓ} (f : Entry → B) (b : Bool) (x y : Entry)
    → f (if b then x else y) ≡ (if b then f x else f y)
field_if f true x y = refl
field_if f false x y = refl

pub field_same {ℓ} :
    {B : Type ℓ} (f : Entry → B) (b : Bool) (x y : Entry) → f x ≡ f y → f (if b then x else y) ≡ f y
field_same f true x y e = e
field_same f false x y e = refl

-- A list without elements is no key.
abbrev pub filled : List Bytes → Bool
filled [] = false
filled (v ∷ vs) = true

-- Redis as a function from keys to entries.
abbrev pub plain_lists : RedisLists
plain_lists = record {
  State = Bytes → Entry;
  items = λ k s. (s k).elements;
  rpush =
      λ k v s j. if eqs k j then record (s k) { elements = (s k).elements ++ (v ∷ []) } else s j;
  ltrim_last = λ k n s j.
      if eqs k j
      then record (s k) { elements = if ltb 0 n then last n (s k).elements else (s k).elements }
      else s j;
  present = λ k s. filled (s k).elements;
  ttl = λ k s. (s k).deadline;
  persist = λ k s j. if eqs k j then record (s j) { deadline = none } else s j;
  expire_nx = λ k t s j.
      if eqs k j && filled (s k).elements
      then record (s j) { deadline = elim (s k).deadline [ none ↦ some t | some old ↦ some old ] }
      else s j;
  items-rpush = λ k v s j. field_if (λ e. e.elements) (eqs k j) _ _;
  items-ltrim_last = λ k n s j. field_if (λ e. e.elements) (eqs k j) _ _;
  ttl-persist = λ k s j. field_if (λ e. e.deadline) (eqs k j) _ _;
  ttl-expire_nx = λ k t s j. field_if (λ e. e.deadline) (eqs k j && filled (s k).elements) _ _;
  present-persist = λ k s j. field_same (λ e. filled e.elements) (eqs k j) _ _ refl;
  present-expire_nx =
      λ k t s j. field_same (λ e. filled e.elements) (eqs k j && filled (s k).elements) _ _ refl;
  items-persist = λ k s j. field_same (λ e. e.elements) (eqs k j) _ _ refl;
  items-expire_nx =
      λ k t s j. field_same (λ e. e.elements) (eqs k j && filled (s k).elements) _ _ refl;
}
