-- ===== src/Controller/Identity.antt =====
-- internal/controller/trafficscenario_identity.go: the names of what the controller creates for a
-- scenario. The SHA-256 digest is a parameter.
mod Tests
use kurama.Base.{
  leb, ◌==◌, if◌then◌else◌, Bool-cases, length, take, length-append, length-take, Bytes, codes, ℕ,
  ◌+◌, ◌-◌, ◌≤◌, ◌≡◌, inl, inr, ◌||◌, [], ◌∷◌, ◌++◌, arith,
}
use kurama.Base.Result.{}

abbrev pub max_runner_name_length : ℕ
max_runner_name_length = 63

abbrev pub runner_name_suffix : Bytes
runner_name_suffix = codes "-runner"

abbrev pub scenario_hash_length : ℕ
scenario_hash_length = 8

abbrev pub max_label_value_length : ℕ
max_label_value_length = 63

abbrev pub hashed_scenario_label_prefix : Bytes
hashed_scenario_label_prefix = codes "sha256-"

-- The hexadecimal digest of a name, 64 digits.
pub record Sha256 : Type 0 where
  pub hex : Bytes → Bytes
  pub length-hex : (s : Bytes) → length (hex s) ≡ 64

-- `strings.TrimRight(s, ".-")`
unfoldable pub trim_separators : Bytes → Bytes
trim_separators [] = []
trim_separators (c ∷ s) =
    let rest = trim_separators s in
    elim rest [ [] ↦ if (c == b'.') || (c == b'-') then [] else c ∷ [] | d ∷ t ↦ c ∷ (d ∷ t) ]

module _ (sha : Sha256) where
  -- `scenarioHash`
  unfoldable pub scenario_hash : Bytes → Bytes
  scenario_hash name = take scenario_hash_length (sha.hex name)

  -- `runnerName`
  unfoldable pub runner_name : Bytes → Bytes
  unfolding scenario_hash
  runner_name name =
      if leb (length name + length runner_name_suffix) max_runner_name_length
      then name ++ runner_name_suffix
      else let hash = scenario_hash name in
        let max_prefix_length =
          max_runner_name_length - length runner_name_suffix - 1 - length hash in
        trim_separators (take max_prefix_length name) ++ (codes "-" ++ (hash ++ runner_name_suffix))

  -- `scenarioLabelValue`
  unfoldable pub scenario_label_value : Bytes → Bytes
  unfolding scenario_hash
  scenario_label_value name =
      if leb (length name) max_label_value_length
      then name
      else hashed_scenario_label_prefix ++ scenario_hash name

  length-trim_separators : (s : Bytes) → length (trim_separators s) ≤ length s
  unfolding trim_separators
  length-trim_separators [] = omega arith
  length-trim_separators (c ∷ s) = ground (arith, length-trim_separators s)

  length-scenario_hash : (name : Bytes) → length (scenario_hash name) ≡ 8
  unfolding scenario_hash
  length-scenario_hash name = ground (arith, length-take 8 (sha.hex name), sha.length-hex name)

  hashed_length :
      (prefix hash : Bytes)
      → length prefix ≤ 47
      → length hash ≡ 8
      → length (prefix ++ (codes "-" ++ (hash ++ runner_name_suffix))) ≤ 63
  hashed_length prefix hash h k = ground (
    arith,
    length-append prefix (codes "-" ++ (hash ++ runner_name_suffix)),
    length-append hash runner_name_suffix,
  )

  length-runner_name : (name : Bytes) → length (runner_name name) ≤ 63
  unfolding runner_name
  length-runner_name name = elim (Bool-cases (leb (length name + 7) 63)) [
    | inl short ↦
        rw (short, runner_name) (ground (arith, short, length-append name runner_name_suffix))
    | inr long ↦
        let hash = scenario_hash name in
        let eight = length-scenario_hash name in
        let kept = take (55 - length hash) name in
        let small : length kept ≤ 47 = omega (arith, length-take (55 - length hash) name, eight) in
        rw (long, runner_name)
          (hashed_length (trim_separators kept) hash
            (omega (arith, small, length-trim_separators kept)) eight)
  ]

  length-scenario_label_value : (name : Bytes) → length (scenario_label_value name) ≤ 63
  unfolding scenario_label_value
  length-scenario_label_value name = elim (Bool-cases (leb (length name) 63)) [
    | inl short ↦ rw (short, scenario_label_value) (ground (arith, short))
    | inr long ↦ rw (long, scenario_label_value) (omega (arith, length-scenario_hash name))
  ]

  -- Both the name of the runner and the label of the scenario fit into the 63 bytes that Kubernetes
  -- allows, and names that are short enough are kept as they are.
  pub runner_name-fits :
      (name : Bytes)
      → (length (runner_name name) ≤ max_runner_name_length)
        × (length (scenario_label_value name) ≤ max_label_value_length)
        × (length name ≤ 56 → runner_name name ≡ name ++ runner_name_suffix)
        × (length name ≤ 63 → scenario_label_value name ≡ name)
  unfolding runner_name scenario_label_value
  runner_name-fits name = (
    length-runner_name name,
    length-scenario_label_value name,
    (λ h. ground (arith, h)),
    (λ h. ground (arith, h)),
  )
