-- ===== src/Controller/Apply/Volumes.antt =====
-- The volume of secret headers among the volumes of a pod.
use kurama.Base.{
  if◌then◌else◌, Bool-cases, eqs→eq, eqs, ◌≡◌, refl, ap, inl, inr, Bool, true, false, ◌&&◌, not,
  Option, none, some, List, [], ◌∷◌, arith,
}
use kurama.Controller.Apply.{
  apply_source, apply_managed_scenario_volume, find_secret_volume, set_secret_volume,
}
use kurama.Controller.Secrets.{secret_headers_volume_name}
use kurama.Controller.Workload.{Volume}

abbrev pub is_secret_volume : Volume → Bool
is_secret_volume v = eqs v.name secret_headers_volume_name

-- No volume has the name of the secret headers.
abbrev pub secret_free : List Volume → Bool
secret_free [] = true
secret_free (v ∷ vs) = not (is_secret_volume v) && secret_free vs

-- At most one volume has that name: Kubernetes accepts no pod with two volumes of one name.
abbrev pub secret_once : List Volume → Bool
secret_once [] = true
secret_once (v ∷ vs) = if is_secret_volume v then secret_free vs else secret_once vs

-- The volume that is desired has the name of the secret headers.
abbrev pub IsSecret : Option Volume → Type 0
IsSecret none = Unit {0}
IsSecret (some d) = is_secret_volume d ≡ true

pub find_secret_volume-IsSecret : (vs : List Volume) → IsSecret (find_secret_volume vs)
unfolding find_secret_volume
find_secret_volume-IsSecret [] = tt
find_secret_volume-IsSecret (v ∷ vs) = elim (Bool-cases (is_secret_volume v)) [
  | inl same ↦ rw same same
  | inr differ ↦ rw differ (find_secret_volume-IsSecret vs)
]

set_secret_volume-free : (vs : List Volume) → secret_free vs ≡ true → set_secret_volume vs none ≡ vs
unfolding set_secret_volume
set_secret_volume-free [] h = refl
set_secret_volume-free (v ∷ vs) h = ground (arith, set_secret_volume-free vs)

set_secret_volume-none :
    (vs : List Volume) → secret_once vs ≡ true → secret_free (set_secret_volume vs none) ≡ true
unfolding set_secret_volume
set_secret_volume-none [] h = refl
set_secret_volume-none (v ∷ vs) h = ground (arith, set_secret_volume-none vs)

-- Setting the volume twice is setting it once.
pub secret_volume-twice :
    (vs : List Volume) (d : Option Volume)
    → IsSecret d
    → secret_once vs ≡ true
    → let a = set_secret_volume vs d in set_secret_volume a d ≡ a
unfolding set_secret_volume
secret_volume-twice vs none i h =
    set_secret_volume-free (set_secret_volume vs none) (set_secret_volume-none vs h)
secret_volume-twice [] (some d) i h = rw i refl
secret_volume-twice (v ∷ vs) (some d) i h = elim (Bool-cases (is_secret_volume v)) [
  | inl same ↦ rw (same, same) refl
  | inr differ ↦
      rw (differ, differ)
        (ap (λ cs. v ∷ cs) (secret_volume-twice vs (some d) i (ground (arith, h, differ))))
]

-- The volume of the configuration leaves the count alone.
secret_free-scenario :
    (vs : List Volume) (d : Volume)
    → is_secret_volume d ≡ false
    → secret_free vs ≡ true
    → secret_free (apply_managed_scenario_volume vs d) ≡ true
unfolding apply_managed_scenario_volume
secret_free-scenario [] d n h = ground (arith, n)
secret_free-scenario (v ∷ vs) d n h = elim (Bool-cases (eqs v.name d.name)) [
  | inl same ↦ rw same h
  | inr differ ↦ rw differ (ground (arith, h, secret_free-scenario vs d n))
]

pub secret_once-scenario :
    (vs : List Volume) (d : Volume)
    → is_secret_volume d ≡ false
    → secret_once vs ≡ true
    → secret_once (apply_managed_scenario_volume vs d) ≡ true
unfolding apply_managed_scenario_volume
secret_once-scenario [] d n h = ground (arith, n)
secret_once-scenario (v ∷ vs) d n h = elim (Bool-cases (eqs v.name d.name)) [
  | inl same ↦ rw same h
  | inr differ ↦
      rw differ (ground (arith, h, secret_once-scenario vs d n, secret_free-scenario vs d n))
]

set_secret_volume-plain :
    (v : Volume) (vs : List Volume) (x : Option Volume)
    → is_secret_volume v ≡ false
    → set_secret_volume (v ∷ vs) x ≡ v ∷ set_secret_volume vs x
unfolding set_secret_volume
set_secret_volume-plain v vs none h = rw h refl
set_secret_volume-plain v vs (some d) h = rw h refl

kept_later :
    (v : Volume) (vs : List Volume) (d : Volume) (x : Option Volume)
    → eqs v.name d.name ≡ false
    → apply_managed_scenario_volume vs d ≡ vs
    → apply_managed_scenario_volume (set_secret_volume vs x) d ≡ set_secret_volume vs x
    → apply_managed_scenario_volume (set_secret_volume (v ∷ vs) x) d ≡ set_secret_volume (v ∷ vs) x
unfolding apply_managed_scenario_volume set_secret_volume
kept_later v vs d none differ rest ih = elim (Bool-cases (is_secret_volume v)) [
  | inl secret ↦ rw secret rest
  | inr plain ↦ rw (plain, differ) (ap (λ ws. v ∷ ws) ih)
]
kept_later v vs d (some y) differ rest ih = elim (Bool-cases (is_secret_volume v)) [
  | inl secret ↦ rw (secret, differ) (ap (λ ws. record v { source = y.source } ∷ ws) rest)
  | inr plain ↦ rw (plain, differ) (ap (λ ws. v ∷ ws) ih)
]

cons_inj : {v w : Volume} {vs ws : List Volume} → v ∷ vs ≡ w ∷ ws → (v ≡ w) × (vs ≡ ws)
cons_inj h = (cc, cc)

-- Setting the secret volume does not undo the volume of the configuration.
pub scenario_volume-kept :
    (vs : List Volume) (d : Volume) (x : Option Volume)
    → is_secret_volume d ≡ false
    → apply_managed_scenario_volume vs d ≡ vs
    → apply_managed_scenario_volume (set_secret_volume vs x) d ≡ set_secret_volume vs x
unfolding apply_managed_scenario_volume
scenario_volume-kept [] d x n h = cc
scenario_volume-kept (v ∷ vs) d x n h = elim (Bool-cases (eqs v.name d.name)) [
  | inl same ↦
      let plain : is_secret_volume v ≡ false = rw (eqs→eq v.name d.name same) n in
      let done : record v { source = apply_source v.source d.source } ≡ v =
        (cons_inj (rw same at h)).0 in
      let step : set_secret_volume (v ∷ vs) x ≡ v ∷ set_secret_volume vs x =
        set_secret_volume-plain v vs x plain in
      rw (step, same) (ap (λ w. w ∷ set_secret_volume vs x) done)
  | inr differ ↦
      let rest : apply_managed_scenario_volume vs d ≡ vs = (cons_inj (rw differ at h)).1 in
      kept_later v vs d x differ rest (scenario_volume-kept vs d x n rest)
]

-- Setting the volume that is there changes nothing.
pub secret_volume_self : (vs : List Volume) → set_secret_volume vs (find_secret_volume vs) ≡ vs
unfolding find_secret_volume set_secret_volume
secret_volume_self [] = refl
secret_volume_self (v ∷ vs) = elim (Bool-cases (is_secret_volume v)) [
  | inl secret ↦ rw (secret, secret) refl
  | inr plain ↦
      rw (plain, set_secret_volume-plain v vs (find_secret_volume vs) plain)
        (ap (λ ws. v ∷ ws) (secret_volume_self vs))
]
