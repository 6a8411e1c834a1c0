-- ===== src/Controller/Conversion/SecretFiles.antt =====
-- The secret headers of the runner and the files that its volume projects are the same.
use mathlib.Core.List.{append_assoc}
use kurama.Base.{
  All-append, All, Bytes, ℕ, ◌+◌, ◌≡◌, refl, ◌∙◌, true, Option, none, some, List, [], ◌∷◌, ◌++◌,
}
use kurama.Api.{TrafficScenario, SecretHeaderSpec, OperationSpec}
use kurama.Config.{SecretHeaderConfig, OperationConfig, secret_headers_mount_path}
use kurama.Controller.Conversion.{
  convert_secret_headers, convert_operation, convert_operations, scenario_runner_config,
}
use kurama.Controller.Secrets.{
  KeyToPath, SecretProjection, ProjectedVolumeSource, header_projections, projections_from,
  desired_secret_header_volume, secret_header_file_path, source_of,
}
use kurama.Controller.Secrets.Paths.{secret_header_path_allowed-file_path}
use kurama.Executor.SecretFiles.{value_files, operation_files, secret_header_files}
use kurama.Validation.Headers.{secret_header_path_allowed}

-- A file below the mount path, and the secret and the key that it holds.
pub record SecretFile : Type 0 where
  pub file : Bytes
  pub secret : Bytes
  pub key : Bytes

-- The files that a projection makes.
pub item_files : Bytes → List KeyToPath → List SecretFile
item_files secret [] = []
item_files secret (k ∷ ks) =
    record { file = secret_headers_mount_path ++ (b'/' ∷ k.path); secret = secret; key = k.key }
    ∷ item_files secret ks

pub projected_files : List SecretProjection → List SecretFile
projected_files [] = []
projected_files (p ∷ ps) = item_files p.name p.items ++ projected_files ps

pub volume_files : Option ProjectedVolumeSource → List SecretFile
volume_files none = []
volume_files (some v) = projected_files v.sources

-- The files that the runner reads, with the secret and the key that the scenario names for each.
pub wanted_headers : List SecretHeaderSpec → List SecretHeaderConfig → List SecretFile
wanted_headers [] cs = []
wanted_headers (h ∷ hs) [] = []
wanted_headers (h ∷ hs) (c ∷ cs) =
    record {
      file = c.value_file;
      secret = h.value_from.secret_key_ref.name;
      key = h.value_from.secret_key_ref.key;
    }
    ∷ wanted_headers hs cs

pub wanted_files : List OperationSpec → List OperationConfig → List SecretFile
wanted_files [] cs = []
wanted_files (o ∷ os) [] = []
wanted_files (o ∷ os) (c ∷ cs) =
    wanted_headers o.request.secret_headers c.request.secret_headers ++ wanted_files os cs

projected_files-append :
    (ps qs : List SecretProjection)
    → projected_files (ps ++ qs) ≡ projected_files ps ++ projected_files qs
unfolding projected_files
projected_files-append [] qs = refl
projected_files-append (p ∷ ps) qs = simp (append_assoc, projected_files-append ps qs)

projected-headers :
    (i j : ℕ) (hs : List SecretHeaderSpec)
    → projected_files (header_projections i j hs)
      ≡ wanted_headers hs (convert_secret_headers i j hs)
unfolding projected_files item_files header_projections wanted_headers convert_secret_headers
    secret_header_file_path
projected-headers i j [] = refl
projected-headers i j (h ∷ hs) = rw (projected-headers i (j + 1) hs) refl

projected-operations :
    (i : ℕ) (os : List OperationSpec)
    → projected_files (projections_from i os) ≡ wanted_files os (convert_operations i os)
unfolding projections_from wanted_files convert_operations convert_operation projected_files
projected-operations i [] = refl
projected-operations i (o ∷ os) =
    projected_files-append (header_projections i 0 o.request.secret_headers)
      (projections_from (i + 1) os)
    ∙ rw (projected-headers i 0 o.request.secret_headers, projected-operations (i + 1) os) refl

allowed-headers :
    (i j : ℕ) (hs : List SecretHeaderSpec)
    → All
        (λ file. secret_header_path_allowed file ≡ true)
        (value_files (convert_secret_headers i j hs))
unfolding value_files convert_secret_headers
allowed-headers i j [] = tt
allowed-headers i j (h ∷ hs) =
    (secret_header_path_allowed-file_path i j, allowed-headers i (j + 1) hs)

allowed-operations :
    (i : ℕ) (os : List OperationSpec)
    → All
        (λ file. secret_header_path_allowed file ≡ true)
        (operation_files (convert_operations i os))
unfolding operation_files convert_operations convert_operation
allowed-operations i [] = tt
allowed-operations i (o ∷ os) =
    All-append _ (value_files (convert_secret_headers i 0 o.request.secret_headers))
      (operation_files (convert_operations (i + 1) os)) (allowed-operations (i + 1) os)
      (allowed-headers i 0 o.request.secret_headers)

volume_files-source_of :
    (ps : List SecretProjection) → volume_files (source_of ps) ≡ projected_files ps
unfolding volume_files projected_files
volume_files-source_of [] = refl
volume_files-source_of (p ∷ ps) = refl

-- The volume of a scenario makes exactly the files from which its runner reads secret headers, each
-- from the secret and the key that the scenario names for that header, and the path of each is one
-- that the runner accepts.
pub desired_secret_header_volume-files :
    (s : TrafficScenario)
    → (volume_files (desired_secret_header_volume s)
        ≡ wanted_files s.spec.operations (scenario_runner_config s).operations)
      × All
          (λ file. secret_header_path_allowed file ≡ true)
          (secret_header_files (scenario_runner_config s))
unfolding desired_secret_header_volume scenario_runner_config secret_header_files
desired_secret_header_volume-files s = (
  volume_files-source_of (projections_from 0 s.spec.operations)
      ∙ projected-operations 0 s.spec.operations,
  allowed-operations 0 s.spec.operations,
)
