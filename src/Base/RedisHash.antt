-- ===== src/Base/RedisHash.antt =====
-- The Redis commands on hashes that the program's Lua scripts call. Redis is not part of the
-- repository: its state and commands are a parameter, with the documented effect of each command
-- on what `HGET` returns. The scripts store integers only, so a field holds a number.
use Prim.Native.Nat.{ℕ, ◌+◌, ◌/◌}
use mathlib.Core.Path.{◌≡◌, refl}
use mathlib.Core.Logic.{inl, inr}
use mathlib.Core.Bool.{Bool, true, ◌&&◌}
use native.Mathlib.Omega.{arith}
use mathlib.Core.Option.{Option, none, some}
use kurama.Base.Tests.{if◌then◌else◌, ltb, leb, Bool-cases}
use kurama.Base.Strings.{Bytes, eqs, eqs_refl}

abbrev pub or_zero : Option ℕ → ℕ
or_zero none = 0
or_zero (some n) = n

-- When a key is still there, in the milliseconds of Redis: it is gone once its deadline has passed.
-- A deadline that is not in the future deletes the key at once.
abbrev pub lives : ℕ → ℕ → ℕ → Bool
lives now ttl later = ltb 0 ttl && leb (later / 1000) (now / 1000 + ttl)

-- Every command runs at a time, in microseconds, and `HGET` finds nothing in a key whose deadline has
-- passed. A command changes only its own key.
pub record RedisHashes : Type 1 where
  pub State : Type 0
  pub hget : ℕ → Bytes → Bytes → State → Option ℕ
  pub hset : ℕ → Bytes → Bytes → ℕ → State → State
  pub hincrby : ℕ → Bytes → Bytes → ℕ → State → State
  -- the deadline of the key, in milliseconds from now
  pub pexpire : ℕ → Bytes → ℕ → State → State
  pub hget-hset :
      (now : ℕ) (k f : Bytes) (v : ℕ) (s : State) (g : Bytes)
      → hget now k g (hset now k f v s) ≡ (if eqs g f then some v else hget now k g s)
  pub hget-hincrby :
      (now : ℕ) (k f : Bytes) (n : ℕ) (s : State) (g : Bytes)
      → hget now k g (hincrby now k f n s)
        ≡ (if eqs g f then some (or_zero (hget now k g s) + n) else hget now k g s)
  pub hget-pexpire :
      (now : ℕ) (k : Bytes) (ttl : ℕ) (s : State) (later : ℕ) (g : Bytes)
      → hget later k g (pexpire now k ttl s)
        ≡ (if lives now ttl later then hget now k g s else none)

-- Redis as a function from keys to fields with values, and to the last millisecond of the key, if it
-- has one.
pub record Hash : Type 0 where
  pub fields : Bytes → Option ℕ
  pub deadline : Option ℕ

abbrev pub alive_at : ℕ → Option ℕ → Bool
alive_at now none = true
alive_at now (some d) = leb (now / 1000) d

abbrev pub read_hash : ℕ → Hash → Bytes → Option ℕ
read_hash now h f = if alive_at now h.deadline then h.fields f else none

-- The hash that a command finds: a key whose deadline has passed is a new one.
abbrev pub current : ℕ → Hash → Hash
current now h = record {
  fields = read_hash now h;
  deadline = if alive_at now h.deadline then h.deadline else none;
}

-- What a command makes of the hash of its own key.
abbrev pub change : Bytes → (Hash → Hash) → (Bytes → Hash) → Bytes → Hash
change k f s j = if eqs j k then f (s j) else s j

abbrev pub set_field : ℕ → Bytes → ℕ → Hash → Hash
set_field now f v h = record (current now h) {
  fields = λ g. if eqs g f then some v else read_hash now h g;
}

abbrev pub add_field : ℕ → Bytes → ℕ → Hash → Hash
add_field now f n h = record (current now h) {
  fields = λ g. if eqs g f then some (or_zero (read_hash now h g) + n) else read_hash now h g;
}

abbrev pub set_deadline : ℕ → ℕ → Hash → Hash
set_deadline now ttl h =
    if ltb 0 ttl
    then record { fields = read_hash now h; deadline = some (now / 1000 + ttl) }
    else record { fields = λ g. none; deadline = none }

-- The hash that a command finds is there.
current-alive : (now : ℕ) (d : Option ℕ) → alive_at now (if alive_at now d then d else none) ≡ true
current-alive now none = refl
current-alive now (some d) = ground arith

pub set_field-read :
    (now : ℕ) (f : Bytes) (v : ℕ) (h : Hash) (g : Bytes)
    → read_hash now (set_field now f v h) g ≡ (if eqs g f then some v else read_hash now h g)
set_field-read now f v h g = rw (current-alive now h.deadline) refl

pub add_field-read :
    (now : ℕ) (f : Bytes) (n : ℕ) (h : Hash) (g : Bytes)
    → read_hash now (add_field now f n h) g
      ≡ (if eqs g f then some (or_zero (read_hash now h g) + n) else read_hash now h g)
add_field-read now f n h g = rw (current-alive now h.deadline) refl

pub set_deadline-read :
    (now ttl later : ℕ) (h : Hash) (g : Bytes)
    → read_hash later (set_deadline now ttl h) g
      ≡ (if lives now ttl later then read_hash now h g else none)
set_deadline-read now ttl later h g = elim (Bool-cases (ltb 0 ttl)) [
  | inl some_time ↦ rw some_time refl
  | inr at_once ↦ rw at_once refl
]

abbrev pub plain_hashes : RedisHashes
plain_hashes = record {
  State = Bytes → Hash;
  hget = λ now k f s. read_hash now (s k) f;
  hset = λ now k f v. change k (set_field now f v);
  hincrby = λ now k f n. change k (add_field now f n);
  pexpire = λ now k ttl. change k (set_deadline now ttl);
  hget-hset = λ now k f v s g. rw (eqs_refl k) (set_field-read now f v (s k) g);
  hget-hincrby = λ now k f n s g. rw (eqs_refl k) (add_field-read now f n (s k) g);
  hget-pexpire = λ now k ttl s later g. rw (eqs_refl k) (set_deadline-read now ttl later (s k) g);
}

-- Redis without any key.
abbrev pub no_hashes : Bytes → Hash
no_hashes k = record { fields = λ f. none; deadline = none }
