-- ===== src/Controller/Secrets/Paths.antt =====
-- The paths of the files are distinct, and the runner accepts them as paths of secrets.
use kurama.Base.{
  ◌==◌, if◌then◌else◌, ==→eq, Bool-cases, length, replicate, Bytes, codes, eqs→eq, has_byte-append,
  eqs, has_prefix, has_byte, ℕ, zero, suc, ◌+◌, ◌-◌, ◌/◌, ◌%◌, ◌≤◌, ◌<◌, ◌≡◌, refl, ◌∙◌, subst, inl,
  inr, Bool, true, false, [], ◌∷◌, ◌++◌, arith,
}
use kurama.Config.{secret_headers_mount_path}
use kurama.Controller.Secrets.{
  decimal_digits, three_digits, secret_header_relative_path, secret_header_file_path,
}
use kurama.JsonPointer.{split_tokens}
use kurama.Validation.Headers.{
  secret_header_path_allowed, clean_rooted, clean_elements, join_reversed,
}

no_slash-decimal_digits : (fuel n : ℕ) → has_byte b'/' (decimal_digits fuel n) ≡ false
unfolding decimal_digits has_byte
no_slash-decimal_digits zero n = refl
no_slash-decimal_digits (suc fuel) n = ground (
  arith,
  no_slash-decimal_digits fuel (n / 10),
  has_byte-append b'/' (decimal_digits fuel (n / 10)) ((48 + n % 10) ∷ []),
)

no_slash-zeros : (n : ℕ) → has_byte b'/' (replicate n b'0') ≡ false
unfolding has_byte
no_slash-zeros zero = refl
no_slash-zeros (suc n) = no_slash-zeros n

no_slash-three_digits : (n : ℕ) → has_byte b'/' (three_digits n) ≡ false
unfolding three_digits
no_slash-three_digits n =
    let digits = decimal_digits (suc n) n in
    has_byte-append b'/' (replicate (3 - length digits) b'0') digits
    ∙ rw (no_slash-zeros (3 - length digits), no_slash-decimal_digits (suc n) n) refl

no_slash-append :
    (s t : Bytes)
    → has_byte b'/' s ≡ false
    → has_byte b'/' t ≡ false
    → has_byte b'/' (s ++ t) ≡ false
no_slash-append s t h k = has_byte-append b'/' s t ∙ rw (h, k) refl

no_slash-secret_header_relative_path :
    (i j : ℕ) → has_byte b'/' (secret_header_relative_path i j) ≡ false
unfolding secret_header_relative_path has_byte
no_slash-secret_header_relative_path i j =
    no_slash-append (codes "operation-") (three_digits i ++ (codes "-header-" ++ three_digits j))
      refl
      (no_slash-append (three_digits i) (codes "-header-" ++ three_digits j)
        (no_slash-three_digits i)
        (no_slash-append (codes "-header-") (three_digits j) refl (no_slash-three_digits j)))

split_tokens-no_slash :
    (c : ℕ) (s : Bytes) → has_byte b'/' (c ∷ s) ≡ false → split_tokens (c ∷ s) ≡ (c ∷ s) ∷ []
unfolding split_tokens has_byte
split_tokens-no_slash c [] h = ground arith
split_tokens-no_slash c (d ∷ s) h = ground (arith, split_tokens-no_slash d s)

-- The elements of a path below the mount path.
split_tokens-mount :
    (t : Bytes)
    → split_tokens (secret_headers_mount_path ++ (b'/' ∷ t))
      ≡ []
        ∷ (codes "var"
            ∷ (codes "run" ∷ (codes "kurama" ∷ (codes "request-secrets" ∷ split_tokens t))))
unfolding split_tokens
split_tokens-mount t = refl

-- A file name that begins with an `o` and has no slash is kept below the mount path.
clean_rooted-file :
    (s : Bytes)
    → has_byte b'/' (b'o' ∷ s) ≡ false
    → clean_rooted (secret_headers_mount_path ++ (b'/' ∷ (b'o' ∷ s)))
      ≡ secret_headers_mount_path ++ (b'/' ∷ (b'o' ∷ s ++ []))
unfolding clean_rooted clean_elements join_reversed eqs
clean_rooted-file s h = rw (split_tokens-mount (b'o' ∷ s), split_tokens-no_slash b'o' s h) refl

clean_rooted-mount : clean_rooted secret_headers_mount_path ≡ secret_headers_mount_path
unfolding clean_rooted clean_elements join_reversed eqs split_tokens
clean_rooted-mount = refl

allowed :
    (s : Bytes)
    → has_byte b'/' (b'o' ∷ s) ≡ false
    → secret_header_path_allowed (secret_headers_mount_path ++ (b'/' ∷ (b'o' ∷ s))) ≡ true
unfolding secret_header_path_allowed has_prefix
allowed s h = rw (clean_rooted-file s h, clean_rooted-mount) refl

-- `secretHeaderPathAllowed` holds of the path of every secret header.
pub secret_header_path_allowed-file_path :
    (i j : ℕ) → secret_header_path_allowed (secret_header_file_path i j) ≡ true
unfolding secret_header_file_path secret_header_relative_path
secret_header_path_allowed-file_path i j =
    allowed (codes "peration-" ++ (three_digits i ++ (codes "-header-" ++ three_digits j)))
      (no_slash-secret_header_relative_path i j)

-- A test passes at `count` indices from `i` on.
passes_from : (ℕ → Bool) → ℕ → ℕ → Bool
passes_from test i zero = true
passes_from test i (suc count) = if test i then passes_from test (i + 1) count else false

passes_from-at :
    (test : ℕ → Bool) (i count j : ℕ)
    → i ≤ j
    → j < i + count
    → passes_from test i count ≡ true
    → test j ≡ true
unfolding passes_from
passes_from-at test i zero j low high h = absurd (omega arith)
passes_from-at test i (suc count) j low high h = elim (Bool-cases (i == j)) [
  | inl same ↦ subst (λ n. test n ≡ true) (==→eq i j same) (ground (arith, h))
  | inr differ ↦
      passes_from-at test (i + 1) count j (grind (arith, differ, low)) (omega arith)
        (ground (arith, h))
]

-- The digits of an index below 100.
digits_of : ℕ → Bytes
digits_of n = 48 ∷ ((48 + n / 10) ∷ ((48 + n % 10) ∷ []))

digits_table : passes_from (λ n. eqs (three_digits n) (digits_of n)) 0 100 ≡ true
unfolding passes_from three_digits decimal_digits eqs digits_of
digits_table = refl

three_digits-eq : (n : ℕ) → n < 100 → three_digits n ≡ digits_of n
three_digits-eq n h =
    eqs→eq (three_digits n) (digits_of n) (
      passes_from-at (λ m. eqs (three_digits m) (digits_of m)) 0 100 n (omega arith) h digits_table)

-- Different secret headers, of at most 100 operations with at most 100 headers each, have different
-- files.
pub secret_header_file_path-distinct :
    (i j i' j' : ℕ)
    → i < 100
    → j < 100
    → i' < 100
    → j' < 100
    → secret_header_file_path i j ≡ secret_header_file_path i' j'
    → (i ≡ i') × (j ≡ j')
unfolding secret_header_file_path secret_header_relative_path digits_of
secret_header_file_path-distinct i j i' j' hi hj hi' hj' same = ground (
  arith,
  three_digits-eq i hi,
  three_digits-eq j hj,
  three_digits-eq i' hi',
  three_digits-eq j' hj',
)
