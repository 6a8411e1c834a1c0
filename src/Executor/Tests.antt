-- ===== src/Executor/Tests.antt =====
-- Executions against a platform that answers in memory, and the theorems at concrete inputs.
use kurama.Base.{
  pos, Bytes, codes, eqs, has_byte, contains_any, ℕ, suc, ◌≡◌, refl, true, false, none, some, [],
  ◌∷◌,
}
use kurama.Base.Result.{ok, err}
use kurama.Base.Assoc.{lookup}
use kurama.Base.Context.{live_context}
use kurama.Config.{OperationConfig}
use kurama.Execution.{is_unavailable, variables_failed, store_empty, projected_line_break}
use kurama.Executor.{
  Platform, Executor, Request, Url, read_secret_header_value, trim_line_end, resolve_variables,
  resolve_variable,
}
use kurama.Executor.Execute.{execute, execute_untimed, prepare}
use kurama.Executor.Success.{Succeeded, execute_outcome}
use kurama.JsonPointer.{string, object, field, no_fields}
use kurama.Store.{ValueStore}
use kurama.Template.{
  pieces, scan, marker_at, marker_tail, trim_left, trim_right, trim_space, render_pieces,
  replace_template_variables,
}

abbrev target : Url
target = record { scheme = codes "http"; host = codes "target"; text = codes "http://target" }

-- Every request is answered with status 200 and an identifier; the state counts the requests.
abbrev platform : Platform ℕ
platform = record {
  now = λ s. s;
  uuid = λ s. (some (codes "u"), s);
  base62 = λ n s. (some (codes "b"), s);
  path_escape = λ s. s;
  json_escape = λ s. s;
  resolve_reference =
      λ path. some (record { scheme = codes "http"; host = codes "target"; text = path });
  method_ok = λ m. true;
  read_file = λ path s. none;
  send = λ ctx request s.
      (some (record { status = 200; body = codes "{}"; body_fails = false }), suc s);
  decode_json = λ body. some (object (field (codes "id") (string (codes "7")) no_fields));
}

-- A store that is empty and accepts values.
abbrev empty_stores : ValueStore ℕ
empty_stores = record { random = λ ctx k s. (ok none, s); put = λ ctx k v s. (ok tt, s) }

abbrev executor : Executor ℕ
executor = record { base_url = target; stores = some empty_stores }

abbrev operation : Bytes → OperationConfig
operation source = record {
  name = codes "read";
  weight = pos 1;
  request = record {
    method = codes "GET";
    path_template = codes "/{{id}}";
    headers = [];
    secret_headers = [];
    body_template = [];
    variables =
        record { name = codes "id"; source = record { type = source; store = []; length = pos 0 } }
        ∷ [];
  };
  expected_status_codes = pos 200 ∷ [];
  capture = none;
}

-- An empty store is reported before a request is sent.
stops_early :
    ((execute platform executor live_context (operation (codes "store")) 4).0.1
      ≡ some (variables_failed (store_empty [])))
    × ((execute platform executor live_context (operation (codes "store")) 4).1 ≡ 4)
unfolding execute execute_untimed resolve_variables resolve_variable eqs
stops_early = (refl, refl)

line_break_refused :
    read_secret_header_value (some (b'a' ∷ (10 ∷ (b'b' ∷ (10 ∷ []))))) ≡ err projected_line_break
unfolding read_secret_header_value trim_line_end eqs contains_any has_byte
line_break_refused = refl

trims_line_end : read_secret_header_value (some (b'a' ∷ (13 ∷ (10 ∷ [])))) ≡ ok (codes "a")
unfolding read_secret_header_value trim_line_end eqs contains_any has_byte
trims_line_end = refl

-- An operation that captures the identifier of the answer.
abbrev create : OperationConfig
create = record (operation (codes "randomUUID")) {
  capture = some (record { store = codes "ids"; json_pointer = codes "/id" });
}

execute_outcome_example :
    let out = execute platform executor live_context create 4 in
    (out.0.1 ≡ none → Succeeded platform executor live_context create 4 out.0.0 out.1)
    × (is_unavailable out.0.1 ≡ true
        → (out.1
            ≡ (resolve_variables platform executor live_context create.request.variables [] 4).1)
          × (out.0.0.status_code ≡ 0))
execute_outcome_example = execute_outcome platform executor live_context create 4

abbrev sent : Request
sent = record {
  method = codes "GET";
  url = record { scheme = codes "http"; host = codes "target"; text = codes "/7" };
  body = [];
  headers = [];
}

prepared :
    prepare platform executor (operation (codes "store")) ((codes "id", codes "7") ∷ []) 0 ≡ ok sent
unfolding prepare replace_template_variables pieces scan marker_at marker_tail trim_space trim_left
    trim_right render_pieces lookup eqs
prepared = refl
