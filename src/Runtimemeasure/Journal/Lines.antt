-- ===== src/Runtimemeasure/Journal/Lines.antt =====
-- The text of the journal file: one canonical digest on a line.
pub mod RoundTrip
pub mod Reading
use attestation_go.Base.{
  ℕ, ◌≡◌, refl, Bool, true, false, List, [], ◌∷◌, ◌++◌, Bytes, bytes_eq, contains, ◌==◌,
  if◌then◌else◌, Result, ok, err,
}
use attestation_go.Teetypes.Text.{trim_space}
use attestation_go.Runtimemeasure.Canonical.{CanonicalError, canonical_digest}

abbrev push : ℕ → List Bytes → List Bytes
push c [] = (c ∷ []) ∷ []
push c (l ∷ ls) = (c ∷ l) ∷ ls

-- strings.SplitSeq(s, "\n")
unfoldable pub split_lines : Bytes → List Bytes
split_lines [] = [] ∷ []
split_lines (c ∷ s) = if c == b'\n' then [] ∷ split_lines s else push c (split_lines s)

-- `d, err := CanonicalDigest(line); err != nil || d != line`, negated.
abbrev pub is_exactly : Result CanonicalError Bytes → Bytes → Bool
is_exactly (ok d) line = bytes_eq d line
is_exactly (err e) line = false

pub data LineKind : Type 0 where
  blank malformed repeated fresh : LineKind

-- What the loop does with a trimmed line; `seen` holds the lines of `order` and no others.
unfoldable pub classify : List Bytes → Bytes → LineKind
unfolding canonical_digest
classify order [] = blank
classify order line =
    if is_exactly (canonical_digest line) line
    then (if contains order line then repeated else fresh)
    else malformed

abbrev keep : LineKind → Bytes → List Bytes × List Bytes → List Bytes × List Bytes
keep blank line (order, skipped) = (order, skipped)
keep malformed line (order, skipped) = (order, skipped ++ line ∷ [])
keep repeated line (order, skipped) = (order, skipped)
keep fresh line (order, skipped) = (order ++ line ∷ [], skipped)

unfoldable pub parse_lines : List Bytes × List Bytes → List Bytes → List Bytes × List Bytes
unfolding classify trim_space
parse_lines (order, skipped) [] = (order, skipped)
parse_lines (order, skipped) (l ∷ ls) =
    let line = trim_space l in parse_lines (keep (classify order line) line (order, skipped)) ls

-- parseJournal: the digests in order, and the lines that were skipped as malformed.
unfoldable pub parse_journal : Bytes → List Bytes × List Bytes
unfolding parse_lines split_lines
parse_journal b = parse_lines ([], []) (split_lines b)

-- The text that unrecordLast writes.
unfoldable pub render : List Bytes → Bytes
render [] = []
render (d ∷ ds) = d ++ (b'\n' ∷ render ds)
