-- ===== src/JsonPointer/Tokens.antt =====
-- The round trip of JSON pointer tokens: every key can be named by a pointer, and the pointer finds it.
use mathlib.Core.List.{append-nil}
use kurama.Base.{
  ◌==◌, if◌then◌else◌, Bool-cases, Bytes, has_prefix, ℕ, ◌≡◌, refl, sym, ap, ◌∙◌, fun_ext, inl, inr,
  true, false, List, [], ◌∷◌, ◌++◌, map, arith,
}
use kurama.Base.Result.{Result, ok, ◌>>=◌}
use kurama.JsonPointer.{
  Json, escapes_ok, validate_json_pointer, split_tokens, replace_slash, replace_tilde, decode_token,
  resolve_tokens, resolve_token, resolve_json_pointer, PointerError,
}

-- RFC 6901: `~` is written `~0` and `/` is written `~1`.
pub encode_token : Bytes → Bytes
encode_token [] = []
encode_token (c ∷ s) =
    if c == b'~'
    then b'~' ∷ (b'0' ∷ encode_token s)
    else if c == b'/'
    then b'~' ∷ (b'1' ∷ encode_token s)
    else c ∷ encode_token s

-- After the first replacement only `~` is still written in two bytes.
half_encode : Bytes → Bytes
half_encode [] = []
half_encode (c ∷ s) = if c == b'~' then b'~' ∷ (b'0' ∷ half_encode s) else c ∷ half_encode s

replace_slash-plain :
    (c : ℕ) (s : Bytes) → (c == b'~') ≡ false → replace_slash (c ∷ s) ≡ c ∷ replace_slash s
unfolding replace_slash
replace_slash-plain c [] h = refl
replace_slash-plain c (d ∷ s) h = ground (arith, h)

replace_tilde-plain :
    (c : ℕ) (s : Bytes) → (c == b'~') ≡ false → replace_tilde (c ∷ s) ≡ c ∷ replace_tilde s
unfolding replace_tilde
replace_tilde-plain c [] h = refl
replace_tilde-plain c (d ∷ s) h = ground (arith, h)

replace_slash-encode : (t : Bytes) → replace_slash (encode_token t) ≡ half_encode t
unfolding encode_token half_encode replace_slash
replace_slash-encode [] = refl
replace_slash-encode (c ∷ s) = elim (Bool-cases (c == b'~')) [
  | inl tilde ↦
      ground (arith, tilde, replace_slash-encode s, replace_slash-plain b'0' (encode_token s))
  | inr plain ↦
      ground (arith, plain, replace_slash-encode s, replace_slash-plain c (encode_token s) plain)
]

replace_tilde-half : (t : Bytes) → replace_tilde (half_encode t) ≡ t
unfolding half_encode replace_tilde
replace_tilde-half [] = refl
replace_tilde-half (c ∷ s) = elim (Bool-cases (c == b'~')) [
  | inl tilde ↦ ground (arith, tilde, replace_tilde-half s)
  | inr plain ↦
      ground (arith, plain, replace_tilde-half s, replace_tilde-plain c (half_encode s) plain)
]

-- Decoding a token gives back the key that was encoded.
pub decode_token-encode : (t : Bytes) → decode_token (encode_token t) ≡ t
unfolding decode_token
decode_token-encode t = rw (replace_slash-encode t) (replace_tilde-half t)

-- The pointer to a path of keys.
pub pointer_to : List Bytes → Bytes
pointer_to [] = []
pointer_to (t ∷ ts) = b'/' ∷ (encode_token t ++ pointer_to ts)

escapes_ok-plain : (c : ℕ) (s : Bytes) → (c == b'~') ≡ false → escapes_ok (c ∷ s) ≡ escapes_ok s
unfolding escapes_ok
escapes_ok-plain c [] h = ground (arith, h)
escapes_ok-plain c (d ∷ s) h = ground (arith, h)

escapes_ok-encode : (t s : Bytes) → escapes_ok (encode_token t ++ s) ≡ escapes_ok s
unfolding encode_token escapes_ok
escapes_ok-encode [] s = refl
escapes_ok-encode (c ∷ t) s = elim (Bool-cases (c == b'~')) [
  | inl tilde ↦ ground (arith, tilde, escapes_ok-encode t s)
  | inr plain ↦
      ground (arith, plain, escapes_ok-encode t s, escapes_ok-plain c (encode_token t ++ s) plain)
]

escapes_ok-pointer_to : (ts : List Bytes) → escapes_ok (pointer_to ts) ≡ true
unfolding pointer_to escapes_ok
escapes_ok-pointer_to [] = refl
escapes_ok-pointer_to (t ∷ ts) =
    escapes_ok-plain b'/' (encode_token t ++ pointer_to ts) refl
    ∙ escapes_ok-encode t (pointer_to ts)
    ∙ escapes_ok-pointer_to ts

-- The first token continues.
abbrev prepend : Bytes → List Bytes → List Bytes
prepend x [] = x ∷ []
prepend x (y ∷ ys) = (x ++ y) ∷ ys

prepend-empty : (s : Bytes) → prepend [] (split_tokens s) ≡ split_tokens s
unfolding split_tokens
prepend-empty [] = refl
prepend-empty (c ∷ s) = ground arith

prepend-cons :
    (c : ℕ) (x : Bytes) (ys : List Bytes) → prepend (c ∷ []) (prepend x ys) ≡ prepend (c ∷ x) ys
prepend-cons c x [] = refl
prepend-cons c x (y ∷ ys) = refl

split_tokens-plain :
    (c : ℕ) (s : Bytes)
    → (c == b'/') ≡ false
    → split_tokens (c ∷ s) ≡ prepend (c ∷ []) (split_tokens s)
unfolding split_tokens
split_tokens-plain c s h = ground (arith, h)

one_byte :
    (c : ℕ) (x s : Bytes)
    → (c == b'/') ≡ false
    → split_tokens (x ++ s) ≡ prepend x (split_tokens s)
    → split_tokens (c ∷ (x ++ s)) ≡ prepend (c ∷ x) (split_tokens s)
one_byte c x s h e =
    split_tokens-plain c (x ++ s) h ∙ ap (prepend (c ∷ [])) e ∙ prepend-cons c x (split_tokens s)

split_tokens-encode :
    (t s : Bytes) → split_tokens (encode_token t ++ s) ≡ prepend (encode_token t) (split_tokens s)
unfolding encode_token
split_tokens-encode [] s = sym (prepend-empty s)
split_tokens-encode (c ∷ t) s =
    let rec = split_tokens-encode t s in
    elim (Bool-cases (c == b'~')) [
      | inl tilde ↦
          rw (tilde) (
            one_byte b'~' (b'0' ∷ encode_token t) s refl
              (one_byte b'0' (encode_token t) s refl rec))
      | inr other ↦ elim (Bool-cases (c == b'/')) [
        | inl slash ↦
            rw (other, slash)
              (one_byte b'~' (b'1' ∷ encode_token t) s refl
                (one_byte b'1' (encode_token t) s refl rec))
        | inr plain ↦ rw (other, plain) (one_byte c (encode_token t) s plain rec)
      ]
    ]

split_tokens-pointer_to :
    (t : Bytes) (ts : List Bytes)
    → split_tokens (encode_token t ++ pointer_to ts) ≡ map encode_token (t ∷ ts)
unfolding pointer_to split_tokens
split_tokens-pointer_to t [] = ground (arith, split_tokens-encode t [], append-nil (encode_token t))
split_tokens-pointer_to t (u ∷ us) = ground (
  arith,
  split_tokens-encode t (pointer_to (u ∷ us)),
  split_tokens-pointer_to u us,
  append-nil (encode_token t),
)

-- Following keys that are written as they are.
pub follow : Bytes → List Bytes → Json → Result PointerError Json
follow pointer [] document = ok document
follow pointer (t ∷ ts) document = do
  next ← resolve_token pointer t document
  follow pointer ts next

resolve_tokens-follow :
    (pointer : Bytes) (ts : List Bytes) (document : Json)
    → resolve_tokens pointer (map encode_token ts) document ≡ follow pointer ts document
unfolding resolve_tokens follow
resolve_tokens-follow pointer [] document = refl
resolve_tokens-follow pointer (t ∷ ts) document = rw (decode_token-encode t) (
    ap (λ f. resolve_token pointer t document >>= f)
      (fun_ext (λ next. resolve_tokens-follow pointer ts next)))

-- The pointer that encodes a path of one key or more, with any bytes in the keys, is valid, and
-- resolving it follows exactly these keys through the document.
pub resolve_json_pointer-pointer_to :
    (t : Bytes) (ts : List Bytes) (document : Json)
    → let pointer = pointer_to (t ∷ ts) in
      (validate_json_pointer pointer ≡ ok tt)
      × (resolve_json_pointer document pointer ≡ follow pointer (t ∷ ts) document)
unfolding validate_json_pointer resolve_json_pointer pointer_to has_prefix
resolve_json_pointer-pointer_to t ts document = (
  rw (escapes_ok-pointer_to (t ∷ ts)) refl,
  ap (λ us. resolve_tokens (pointer_to (t ∷ ts)) us document) (split_tokens-pointer_to t ts)
      ∙ resolve_tokens-follow (pointer_to (t ∷ ts)) (t ∷ ts) document,
)
