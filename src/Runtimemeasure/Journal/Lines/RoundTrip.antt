-- ===== src/Runtimemeasure/Journal/Lines/RoundTrip.antt =====
-- The journal's text and its reading: what is written is read back, and whatever is read is a list of
-- distinct canonical digests.
use attestation_go.Base.{
  ℕ, ◌≡◌, refl, sym, ap, ◌∙◌, true, false, List, [], ◌∷◌, ◌++◌, append-nil, append_assoc, arith,
  Bytes, All-append, bytes_eq_iff, bytes_eq_refl, contains, Result, ok, err,
}
use attestation_go.Teetypes.Digest.{all_lower_hex, is_lower_hex}
use attestation_go.Teetypes.Text.{trim_space}
use attestation_go.Teetypes.Text.Plain.{IsPlain, IsPlainByte, trim_space-plain}
use attestation_go.Runtimemeasure.Canonical.{CanonicalError, digest_prefix, canonical_digest}
use attestation_go.Runtimemeasure.Canonical.Shape.{
  IsCanonical, canonical_digest_self, canonical_digest_sound,
}
use attestation_go.Runtimemeasure.Journal.Lines.{
  split_lines, is_exactly, LineKind, blank, malformed, repeated, fresh, classify, keep, parse_lines,
  parse_journal, render,
}

-- The digests that may follow `seen`: canonical, and each for the first time.
abbrev pub Follows : List Bytes → List Bytes → Type 0
Follows seen [] = Unit
Follows seen (d ∷ ds) = IsCanonical d × (contains seen d ≡ false) × Follows (seen ++ d ∷ []) ds

abbrev pub IsOrder : List Bytes → Type 0
IsOrder = Follows []

hex-IsPlain : (hex : Bytes) → all_lower_hex hex ≡ true → IsPlain hex
unfolding all_lower_hex is_lower_hex
hex-IsPlain [] h = tt
hex-IsPlain (c ∷ s) h =
    let tail : all_lower_hex s ≡ true = ground arith in (ground arith, hex-IsPlain s tail)

pub IsCanonical-IsPlain : {d : Bytes} → IsCanonical d → IsPlain d
IsCanonical-IsPlain c =
    rw c.is_prefixed
      (All-append IsPlainByte digest_prefix c.hex (omega arith) (hex-IsPlain c.hex c.lower))

pub split_lines-append :
    (l rest : Bytes) → IsPlain l → split_lines (l ++ b'\n' ∷ rest) ≡ l ∷ split_lines rest
unfolding split_lines
split_lines-append [] rest h = refl
split_lines-append (c ∷ l) rest h = rw (split_lines-append l rest h.1) (ground arith)

pub split_lines-plain : (l : Bytes) → IsPlain l → split_lines l ≡ l ∷ []
unfolding split_lines
split_lines-plain [] h = refl
split_lines-plain (c ∷ l) h = rw (split_lines-plain l h.1) (ground arith)

classify-cons :
    (order : List Bytes) (c : ℕ) (s : Bytes)
    → canonical_digest (c ∷ s) ≡ ok (c ∷ s)
    → contains order (c ∷ s) ≡ false
    → classify order (c ∷ s) ≡ fresh
unfolding classify
classify-cons order c s h f = rw (h, bytes_eq_refl (c ∷ s), f)

classify-fresh :
    (order : List Bytes) {d : Bytes}
    → IsCanonical d
    → contains order d ≡ false
    → classify order d ≡ fresh
classify-fresh order {d = []} c f = let e : digest_prefix ++ c.hex ≡ [] = sym c.is_prefixed in cc
classify-fresh order {d = c ∷ s} k f = classify-cons order c s (canonical_digest_self k) f

parse_lines-fresh :
    (order skipped : List Bytes) {d : Bytes} (ls : List Bytes)
    → IsCanonical d
    → contains order d ≡ false
    → parse_lines (order, skipped) (d ∷ ls) ≡ parse_lines (order ++ d ∷ [], skipped) ls
unfolding parse_lines
parse_lines-fresh order skipped {d} ls c f =
    rw (trim_space-plain d (IsCanonical-IsPlain c), classify-fresh order c f)

-- Reading on from `seen` behind a rendered list that may follow it.
pub parse_lines-render :
    (seen skipped ds : List Bytes) (rest : Bytes)
    → Follows seen ds
    → parse_lines (seen, skipped) (split_lines (render ds ++ rest))
      ≡ parse_lines (seen ++ ds, skipped) (split_lines rest)
unfolding render
parse_lines-render seen skipped [] rest h = rw append-nil
parse_lines-render seen skipped (d ∷ ds) rest h =
    rw
      (
        append_assoc d (b'\n' ∷ render ds) rest,
        split_lines-append d (render ds ++ rest) (IsCanonical-IsPlain h.0),
        parse_lines-fresh seen skipped (split_lines (render ds ++ rest)) h.0 h.1,
      )
      (parse_lines-render (seen ++ d ∷ []) skipped ds rest h.2 ∙ rw append_assoc)

pub parse_lines-end :
    (order skipped : List Bytes) → parse_lines (order, skipped) (split_lines []) ≡ (order, skipped)
unfolding parse_lines split_lines
parse_lines-end order skipped = refl

-- The text of a list of distinct canonical digests is read back as that list, and no line of it is
-- skipped.
pub parse_journal-render : (ds : List Bytes) → IsOrder ds → parse_journal (render ds) ≡ (ds, [])
unfolding parse_journal
parse_journal-render ds h =
    ap (λ (s : Bytes). parse_lines ([], []) (split_lines s)) (sym (append-nil (render ds)))
    ∙ parse_lines-render [] [] ds [] h
    ∙ parse_lines-end ds []

pub Follows-concat :
    (seen ds : List Bytes) {d : Bytes}
    → Follows seen ds
    → IsCanonical d
    → contains (seen ++ ds) d ≡ false
    → Follows seen (ds ++ d ∷ [])
Follows-concat seen [] h c f = (c, rw append-nil at f, tt)
Follows-concat seen (x ∷ ds) {d} h c f = (
  h.0,
  h.1,
  Follows-concat (seen ++ x ∷ []) ds h.2 c
      (ap (λ (l : List Bytes). contains l d) (append_assoc seen (x ∷ []) ds) ∙ f),
)

pub is_exactly-IsCanonical :
    (line : Bytes) (r : Result CanonicalError Bytes)
    → canonical_digest line ≡ r
    → is_exactly r line ≡ true
    → IsCanonical line
is_exactly-IsCanonical line (ok d) e h =
    let same : d ≡ line = (bytes_eq_iff d line).0 h in
    rw (← same) (canonical_digest_sound line e).canonical
is_exactly-IsCanonical line (err x) e h = cc

pub classify-eq-fresh :
    (order : List Bytes) (line : Bytes)
    → classify order line ≡ fresh
    → IsCanonical line × (contains order line ≡ false)
unfolding classify
classify-eq-fresh order [] h = cc
classify-eq-fresh order (c ∷ s) h =
    (is_exactly-IsCanonical (c ∷ s) (canonical_digest (c ∷ s)) refl (ground arith), ground arith)

keep-IsOrder :
    (k : LineKind) (line : Bytes) (order skipped : List Bytes)
    → classify order line ≡ k
    → IsOrder order
    → IsOrder (keep k line (order, skipped)).0
keep-IsOrder blank line order skipped e h = h
keep-IsOrder malformed line order skipped e h = h
keep-IsOrder repeated line order skipped e h = h
keep-IsOrder fresh line order skipped e h =
    let (c, f) = classify-eq-fresh order line e in Follows-concat [] order h c f

parse_lines-IsOrder :
    (ls : List Bytes) (state : List Bytes × List Bytes)
    → IsOrder state.0
    → IsOrder (parse_lines state ls).0
unfolding parse_lines
parse_lines-IsOrder [] (order, skipped) h = h
parse_lines-IsOrder (l ∷ ls) (order, skipped) h =
    parse_lines-IsOrder ls (keep (classify order (trim_space l)) (trim_space l) (order, skipped))
      (keep-IsOrder (classify order (trim_space l)) (trim_space l) order skipped refl h)

-- Whatever the file holds, what is read from it is a list of distinct canonical digests.
pub parse_journal-IsOrder : (b : Bytes) → IsOrder (parse_journal b).0
unfolding parse_journal
parse_journal-IsOrder b = parse_lines-IsOrder (split_lines b) ([], []) tt

pub render-append : (ds es : List Bytes) → render (ds ++ es) ≡ render ds ++ render es
unfolding render
render-append [] es = refl
render-append (d ∷ ds) es = rw (render-append ds es, append_assoc)
