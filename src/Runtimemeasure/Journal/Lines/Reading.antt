-- ===== src/Runtimemeasure/Journal/Lines/Reading.antt =====
-- What the reading of a journal keeps of the lines of the file.
use attestation_go.Base.{
  ℕ, ◌≡◌, ◌⊎◌, inl, inr, refl, sym, ap, ◌∙◌, arith, true, false, List, [], ◌∷◌, ◌++◌, append-nil,
  append_assoc, Bytes, bytes_eq, contains, All, ◌==◌, Result, ok, err, Bool-cases,
}
use attestation_go.Teetypes.Text.{trim_space}
use attestation_go.Runtimemeasure.Canonical.{CanonicalError, canonical_digest}
use attestation_go.Runtimemeasure.Canonical.Shape.{IsCanonical}
use attestation_go.Runtimemeasure.Journal.Lines.{
  split_lines, is_exactly, LineKind, blank, malformed, repeated, fresh, classify, keep, parse_lines,
  parse_journal,
}
use attestation_go.Runtimemeasure.Journal.Lines.RoundTrip.{classify-eq-fresh}

-- A line holds no newline; lines are joined by one.
abbrev pub IsLine : Bytes → Type 0
IsLine l = All (λ c. (c == 10) ≡ false) l

abbrev pub join_lines : Bytes → List Bytes → Bytes
join_lines l [] = l
join_lines l (m ∷ ls) = l ++ (10 ∷ join_lines m ls)

-- A text that is not its own canonical digest.
abbrev pub IsOther : Bytes → Result CanonicalError Bytes → Type 0
IsOther d (ok c) = bytes_eq c d ≡ false
IsOther d (err e) = Unit {0}

-- The digests that are new in the lines, after those of `seen`: each is a trimmed line that is canonical
-- and was not there before, in the order of the lines, and every other line repeats a digest or is none.
abbrev pub FirstsOf : List Bytes → List Bytes → List Bytes → Type 0
FirstsOf seen [] ds = ds ≡ []
FirstsOf seen (l ∷ ls) ds =
    ((rest : List Bytes) × (ds ≡ trim_space l ∷ rest)
      × IsCanonical (trim_space l)
      × (contains seen (trim_space l) ≡ false)
      × FirstsOf (seen ++ trim_space l ∷ []) ls rest)
    ⊎ (((contains seen (trim_space l) ≡ true)
          ⊎ IsOther (trim_space l) (canonical_digest (trim_space l)))
        × FirstsOf seen ls ds)

join_lines-cons :
    (c : ℕ) (l : Bytes) (ls : List Bytes) → join_lines (c ∷ l) ls ≡ c ∷ join_lines l ls
join_lines-cons c l [] = refl
join_lines-cons c l (m ∷ ls) = refl

pub split_lines_sound :
    (s : Bytes)
    → (l : Bytes) × (ls : List Bytes) × (split_lines s ≡ l ∷ ls)
      × (s ≡ join_lines l ls)
      × All IsLine (l ∷ ls)
unfolding split_lines
split_lines_sound [] = ([], [], refl, refl, (tt, tt))
split_lines_sound (c ∷ s) =
    let (l, ls, e, j, a) = split_lines_sound s in
    elim (Bool-cases (c == 10)) [
      | inl newline ↦
          let same : c ≡ 10 = ground arith in
          ([], l ∷ ls, rw (newline, e) refl, cc (same, j), (tt, a))
      | inr other ↦ (
        c ∷ l,
        ls,
        rw (other, e) refl,
        ap (λ t. c ∷ t) j ∙ sym (join_lines-cons c l ls),
        ((other, a.0), a.1),
      )
    ]

IsOther-of : (d : Bytes) (r : Result CanonicalError Bytes) → is_exactly r d ≡ false → IsOther d r
IsOther-of d (ok c) h = h
IsOther-of d (err e) h = tt

blank-IsOther : IsOther [] (canonical_digest [])
unfolding canonical_digest
blank-IsOther = tt

classify_lem :
    (order : List Bytes) (d : Bytes)
    → (classify order d ≡ fresh) ⊎ ((contains order d ≡ true) ⊎ IsOther d (canonical_digest d))
unfolding classify
classify_lem order [] = inr (inr blank-IsOther)
classify_lem order (c ∷ s) = elim (Bool-cases (is_exactly (canonical_digest (c ∷ s)) (c ∷ s))) [
  | inr other ↦ inr (inr (IsOther-of (c ∷ s) (canonical_digest (c ∷ s)) other))
  | inl exact ↦ elim (Bool-cases (contains order (c ∷ s))) [
    | inl known ↦ inr (inl known)
    | inr new ↦ inl (rw (exact, new) refl)
  ]
]

-- The order that is read from the lines behind an order.
abbrev IsRead : List Bytes → List Bytes → List Bytes → Type 0
IsRead order ls out = (ds : List Bytes) × (out ≡ order ++ ds) × FirstsOf order ls ds

skipped_line :
    (k : LineKind) (l : Bytes) (ls order : List Bytes) (out : List Bytes)
    → classify order (trim_space l) ≡ k
    → ((fresh ≡ k) → ⊥)
    → IsRead order ls out
    → IsRead order (l ∷ ls) out
skipped_line k l ls order out e other (ds, whole, firsts) =
    elim (classify_lem order (trim_space l)) [
      | inl new ↦ absurd (other (sym new ∙ e))
      | inr skip ↦ (ds, whole, inr (skip, firsts))
    ]

parse_line_sound :
    (k : LineKind) (l : Bytes) (ls order skipped : List Bytes)
    → classify order (trim_space l) ≡ k
    → ((o s : List Bytes) → IsRead o ls (parse_lines (o, s) ls).0)
    → IsRead order (l ∷ ls) (parse_lines (keep k (trim_space l) (order, skipped)) ls).0
parse_line_sound blank l ls order skipped e ih =
    skipped_line blank l ls order _ e (λ n. cc n) (ih order skipped)
parse_line_sound malformed l ls order skipped e ih =
    skipped_line malformed l ls order _ e (λ n. cc n) (ih order (skipped ++ trim_space l ∷ []))
parse_line_sound repeated l ls order skipped e ih =
    skipped_line repeated l ls order _ e (λ n. cc n) (ih order skipped)
parse_line_sound fresh l ls order skipped e ih =
    let d = trim_space l in
    let (ds, whole, firsts) = ih (order ++ d ∷ []) skipped in
    let (canonical, new) = classify-eq-fresh order d e in
    (d ∷ ds, whole ∙ append_assoc order (d ∷ []) ds, inl (ds, refl, canonical, new, firsts))

parse_lines_sound :
    (ls order skipped : List Bytes) → IsRead order ls (parse_lines (order, skipped) ls).0
unfolding parse_lines
parse_lines_sound [] order skipped = ([], sym (append-nil order), refl)
parse_lines_sound (l ∷ ls) order skipped =
    parse_line_sound (classify order (trim_space l)) l ls order skipped refl
      (λ o s. parse_lines_sound ls o s)

-- The digests that a text holds: those that are new in its lines.
abbrev pub HoldsDigests : Bytes → List Bytes → Type 0
HoldsDigests s ds =
    (l : Bytes) × (ls : List Bytes) × (s ≡ join_lines l ls)
    × All IsLine (l ∷ ls)
    × FirstsOf [] (l ∷ ls) ds

pub parse_journal_sound : (s : Bytes) → HoldsDigests s (parse_journal s).0
unfolding parse_journal
parse_journal_sound s =
    let (l, ls, e, j, a) = split_lines_sound s in
    let (ds, whole, firsts) = parse_lines_sound (l ∷ ls) [] [] in
    let same : (parse_lines ([], []) (split_lines s)).0 ≡ ds =
      ap (λ x. (parse_lines ([], []) x).0) e ∙ whole in
    (l, ls, j, a, rw same firsts)
