-- ===== src/Controller/Identity/Tests.antt =====
-- Names of runners, and the theorem at a concrete input.
use kurama.Base.{length, replicate, Bytes, codes, ◌≤◌, ◌≡◌, refl, ◌∷◌, ◌++◌}
use kurama.Controller.Identity.{
  Sha256, runner_name, scenario_label_value, runner_name-fits, max_runner_name_length,
  max_label_value_length, runner_name_suffix, scenario_hash, trim_separators,
}

-- A digest of 64 zeros.
abbrev zeros : Sha256
zeros = record { hex = λ s. replicate 64 b'0'; length-hex = λ s. refl }

abbrev long_name : Bytes
long_name = replicate 46 b'a' ++ (b'-' ∷ replicate 20 b'b')

-- The name is cut before the dash at its 47th byte.
long_runner_name : runner_name zeros long_name ≡ replicate 46 b'a' ++ codes "-00000000-runner"
unfolding runner_name scenario_hash trim_separators
long_runner_name = refl

runner_name-fits_example :
    (length (runner_name zeros long_name) ≤ max_runner_name_length)
    × (length (scenario_label_value zeros long_name) ≤ max_label_value_length)
    × (length long_name ≤ 56 → runner_name zeros long_name ≡ long_name ++ runner_name_suffix)
    × (length long_name ≤ 63 → scenario_label_value zeros long_name ≡ long_name)
runner_name-fits_example = runner_name-fits zeros long_name
