-- ===== src/Template/Scan.antt =====
-- The pieces of a text make up the text again, and the fuel of the scan is enough.
use mathlib.Core.List.{append_assoc}
use kurama.Base.{
  ◌==◌, if◌then◌else◌, Bool-cases, Option-cases, length, All, length-append, Bytes, codes, ℕ, zero,
  suc, ◌≤◌, ◌≡◌, refl, ap, inl, inr, false, ◌&&◌, Option, none, some, List, [], ◌∷◌, ◌++◌, arith,
}
use kurama.Base.Result.{}
use kurama.Template.{Piece, plain, marker, marker_tail, marker_at, scan, pieces, is_brace}

abbrev pub piece_text : Piece → Bytes
piece_text (plain c) = c ∷ []
piece_text (marker text) = codes "{{" ++ (text ++ codes "}}")

text_of : List Piece → Bytes
text_of [] = []
text_of (p ∷ ps) = piece_text p ++ text_of ps

-- The text of a marker holds no brace.
abbrev pub BraceFree : Bytes → Type 0
BraceFree s = All (λ c. is_brace c ≡ false) s

closing :
    (c d : ℕ) (s name rest : Bytes)
    → ◌≡◌ {A = Option (Bytes × Bytes)}
        (if (c == b'}') && (d == b'}') then some ([], s) else none)
        (some (name, rest))
    → (c ∷ (d ∷ s) ≡ name ++ (codes "}}" ++ rest)) × BraceFree name
closing c d s name rest h = ground (arith, h)

marker_tail_lem :
    (s name rest : Bytes)
    → marker_tail s ≡ some (name, rest)
    → (s ≡ name ++ (codes "}}" ++ rest)) × BraceFree name
unfolding marker_tail
marker_tail_lem [] name rest h = absurd (grind (arith, h))
marker_tail_lem (c ∷ []) name rest h = absurd (grind (arith, h))
marker_tail_lem (c ∷ (d ∷ s)) name rest h = elim (Bool-cases (is_brace c)) [
  | inl brace ↦ closing c d s name rest (rw (brace, marker_tail) at h)
  | inr other ↦ elim (Option-cases (marker_tail (d ∷ s))) [
    | inl e ↦ absurd (ground (arith, rw (other, e, marker_tail) at h))
    | inr (q, e) ↦
        let (a, b) = marker_tail_lem (d ∷ s) q.0 q.1 e in
        let h' : some (c ∷ q.0, q.1) ≡ some (name, rest) = rw (other, e, marker_tail) at h in
        ground (arith, h', a, b, other)
  ]
]

marker_at_lem :
    (s text rest : Bytes) → marker_at s ≡ some (text, rest) → s ≡ piece_text (marker text) ++ rest
unfolding marker_at
marker_at_lem [] text rest h = absurd (grind (arith, h))
marker_at_lem (c ∷ []) text rest h = absurd (grind (arith, h))
marker_at_lem (c ∷ (d ∷ s)) text rest h = elim (Bool-cases ((c == b'{') && (d == b'{'))) [
  | inl braces ↦
      let (e, free) = marker_tail_lem s text rest (rw (braces, marker_at) at h) in
      ground (arith, braces, e, append_assoc text (codes "}}") rest)
  | inr other ↦ absurd (ground (arith, rw (other, marker_at) at h))
]

scan_shrinks :
    (c : ℕ) (s text rest : Bytes) → marker_at (c ∷ s) ≡ some (text, rest) → length rest ≤ length s
scan_shrinks c s text rest h =
    let e = ap length (marker_at_lem (c ∷ s) text rest h) in
    let f = length-append (text ++ codes "}}") rest in
    ground (arith, e, f, length-append text (codes "}}" ++ rest), length-append (codes "}}") rest)

text_of-scan : (fuel : ℕ) (s : Bytes) → length s ≤ fuel → text_of (scan fuel s) ≡ s
unfolding text_of scan
text_of-scan zero [] le = refl
text_of-scan zero (c ∷ s) le = absurd (ground (arith, le))
text_of-scan (suc fuel) [] le = refl
text_of-scan (suc fuel) (c ∷ s) le = elim (Option-cases (marker_at (c ∷ s))) [
  | inl e ↦
      let rec = text_of-scan fuel s (ground (arith, le)) in rw (e, text_of) (ground (arith, rec))
  | inr (q, e) ↦
      let rec = text_of-scan fuel q.1 (ground (arith, le, scan_shrinks c s q.0 q.1 e)) in
      rw (e, text_of) (ground (arith, rec, marker_at_lem (c ∷ s) q.0 q.1 e))
]

-- The pieces of a text, plain bytes and markers in their braces, make up the whole text: the scan
-- drops nothing and the fuel that `pieces` gives it is enough.
text_of-pieces : (s : Bytes) → text_of (pieces s) ≡ s
unfolding pieces
text_of-pieces s = text_of-scan (length s) s (omega arith)
