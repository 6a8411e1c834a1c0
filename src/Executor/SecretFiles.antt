-- ===== src/Executor/SecretFiles.antt =====
-- `SecretHeaderFiles` and `CheckSecretHeaderFiles` of internal/runner/executor_headers.go.
use kurama.Base.{Bytes, ℕ, ◌+◌, Option, List, [], ◌∷◌, ◌++◌}
use kurama.Base.Result.{Result, ok, err}
use kurama.Config.{Config, OperationConfig, SecretHeaderConfig}
use kurama.Execution.{HeaderError}
use kurama.Executor.{read_secret_header_value}

unfoldable pub value_files : List SecretHeaderConfig → List Bytes
value_files [] = []
value_files (h ∷ hs) = h.value_file ∷ value_files hs

unfoldable pub operation_files : List OperationConfig → List Bytes
unfolding value_files
operation_files [] = []
operation_files (o ∷ os) = value_files o.request.secret_headers ++ operation_files os

-- `Config.SecretHeaderFiles`
unfoldable pub secret_header_files : Config → List Bytes
unfolding operation_files
secret_header_files c = operation_files c.operations

-- `CheckSecretHeaderFiles`, with what the files hold as a parameter; the error names the index.
unfoldable pub check_secret_header_files :
    (Bytes → Option Bytes) → ℕ → List Bytes → Result (ℕ × HeaderError) (Unit {0})
check_secret_header_files read_file i [] = ok tt
check_secret_header_files read_file i (path ∷ paths) =
    let rest = check_secret_header_files read_file (i + 1) paths in
    elim (read_secret_header_value (read_file path)) [ err e ↦ err (i, e) | ok value ↦ rest ]
