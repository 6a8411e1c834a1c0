-- ===== src/Controller/Secrets.antt =====
-- internal/controller/trafficscenario_secrets.go: the files that hold the values of secret headers,
-- and the volume that projects them.
pub mod Paths
use kurama.Base.{
  ltb, if◌then◌else◌, length, replicate, Bytes, codes, ℕ, zero, suc, ◌+◌, ◌-◌, ◌/◌, ◌%◌, Option,
  none, some, List, [], ◌∷◌, ◌++◌,
}
use kurama.Api.{TrafficScenario, OperationSpec, SecretHeaderSpec}
use kurama.Config.{secret_headers_mount_path}

abbrev pub secret_headers_volume_name : Bytes
secret_headers_volume_name = codes "request-secrets"

-- The decimal digits of a number, which are no more than the number and one, the fuel given below.
unfoldable pub decimal_digits : ℕ → ℕ → Bytes
decimal_digits zero n = []
decimal_digits (suc fuel) n =
    let front = decimal_digits fuel (n / 10) in
    if ltb n 10 then (48 + n) ∷ [] else front ++ ((48 + n % 10) ∷ [])

abbrev pad_three : Bytes → Bytes
pad_three digits = replicate (3 - length digits) b'0' ++ digits

-- `%03d` of an index
unfoldable pub three_digits : ℕ → Bytes
unfolding decimal_digits
three_digits n = pad_three (decimal_digits (suc n) n)

-- `secretHeaderRelativePath`
unfoldable pub secret_header_relative_path : ℕ → ℕ → Bytes
secret_header_relative_path operation header =
    codes "operation-" ++ (three_digits operation ++ (codes "-header-" ++ three_digits header))

-- `secretHeaderFilePath`; both parts are clean, so joining them puts a slash between.
unfoldable pub secret_header_file_path : ℕ → ℕ → Bytes
secret_header_file_path operation header =
    secret_headers_mount_path ++ (b'/' ∷ secret_header_relative_path operation header)

-- `corev1.KeyToPath`
pub record KeyToPath : Type 0 where
  pub key : Bytes
  pub path : Bytes

-- A projection of a secret: its name, and its keys with the paths of their files.
pub record SecretProjection : Type 0 where
  pub name : Bytes
  pub items : List KeyToPath

unfoldable pub header_projections : ℕ → ℕ → List SecretHeaderSpec → List SecretProjection
header_projections i j [] = []
header_projections i j (h ∷ hs) =
    record {
      name = h.value_from.secret_key_ref.name;
      items =
          record { key = h.value_from.secret_key_ref.key; path = secret_header_relative_path i j }
          ∷ [];
    }
    ∷ header_projections i (j + 1) hs

-- The two loops of `desiredSecretHeaderVolume`, from operation `i` on.
unfoldable pub projections_from : ℕ → List OperationSpec → List SecretProjection
unfolding header_projections
projections_from i [] = []
projections_from i (o ∷ os) =
    header_projections i 0 o.request.secret_headers ++ projections_from (i + 1) os

-- `corev1.ProjectedVolumeSource`
pub record ProjectedVolumeSource : Type 0 where
  pub sources : List SecretProjection
  pub default_mode : ℕ

abbrev pub source_of : List SecretProjection → Option ProjectedVolumeSource
source_of [] = none
source_of (p ∷ ps) = some (record { sources = p ∷ ps; default_mode = 292 })

-- `desiredSecretHeaderVolume`: the source of the volume, whose name is fixed. Its mode is 0444.
unfoldable pub desired_secret_header_volume : TrafficScenario → Option ProjectedVolumeSource
unfolding projections_from
desired_secret_header_volume s = source_of (projections_from 0 s.spec.operations)
