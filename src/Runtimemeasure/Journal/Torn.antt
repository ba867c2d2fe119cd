-- ===== src/Runtimemeasure/Journal/Torn.antt =====
-- What a partial last line does to a journal that goes on measuring.
use attestation_go.Base.{
  ℕ, ◌+◌, ◌<◌, ◌≡◌, ◌≢◌, inl, inr, refl, sym, ap, ◌∙◌, true, false, Option, none, some, List, [],
  ◌∷◌, ◌++◌, append_assoc, arith, Bytes, All, All-append, bytes_eq_iff, length, length-append,
  contains, ok, Stdlib, Bool-cases,
}
use attestation_go.Teetypes.Text.Plain.{IsPlain, IsPlainByte, trim_space-plain}
use attestation_go.Runtimemeasure.Canonical.{canonical_digest}
use attestation_go.Runtimemeasure.Canonical.Shape.{
  IsCanonical, length-IsCanonical, canonical_digest_self,
}
use attestation_go.Runtimemeasure.Fold.{event, extend, from_digests_seeded}
use attestation_go.Runtimemeasure.Journal.Files.{contents}
use attestation_go.Runtimemeasure.Journal.Lines.{
  split_lines, malformed, classify, is_exactly, parse_lines, parse_journal, render,
}
use attestation_go.Runtimemeasure.Journal.Lines.RoundTrip.{
  IsOrder, IsCanonical-IsPlain, is_exactly-IsCanonical, split_lines-append, split_lines-plain,
  parse_lines-render, parse_lines-end,
}
use attestation_go.Runtimemeasure.Journal.Open.{
  open_succeeds, malformed_entries, register_diverged, Opened, loaded, diverge, try_repair,
  reconcile, open_journal_seeded,
}
use attestation_go.Runtimemeasure.Journal.Restart.{journal_of, unsnoc-eq-some, bytes_eq-false}
use attestation_go.Runtimemeasure.Journal.Synced.{add_to_world, add_to_journal, fold-concat}
use attestation_go.Runtimemeasure.Journal.{World, unsnoc, all_succeed, line_of, measure_once}

classify-malformed :
    (order : List Bytes) (line : Bytes)
    → 0 < length line
    → ¬ IsCanonical line
    → classify order line ≡ malformed
unfolding classify
classify-malformed order [] pos bad = absurd (omega arith)
classify-malformed order (c ∷ s) pos bad =
    elim (Bool-cases (is_exactly (canonical_digest (c ∷ s)) (c ∷ s))) [
      | inl e ↦ absurd (bad (is_exactly-IsCanonical (c ∷ s) (canonical_digest (c ∷ s)) refl e))
      | inr e ↦ rw e
    ]

parse_lines-malformed :
    (order skipped : List Bytes) (line : Bytes) (ls : List Bytes)
    → IsPlain line
    → 0 < length line
    → ¬ IsCanonical line
    → parse_lines (order, skipped) (line ∷ ls) ≡ parse_lines (order, skipped ++ line ∷ []) ls
unfolding parse_lines
parse_lines-malformed order skipped line ls plain pos bad =
    rw (trim_space-plain line plain, classify-malformed order line pos bad)

-- A bad line, with or without its newline, behind a journal's text is skipped.
parse_journal-bad_line :
    (ds : List Bytes) (line : Bytes)
    → IsOrder ds
    → IsPlain line
    → 0 < length line
    → ¬ IsCanonical line
    → (parse_journal (render ds ++ line) ≡ (ds, line ∷ []))
      × (parse_journal (render ds ++ line_of line) ≡ (ds, line ∷ []))
unfolding parse_journal
parse_journal-bad_line ds line order plain pos bad = (
  parse_lines-render [] [] ds line order
      ∙ rw (split_lines-plain line plain)
          (parse_lines-malformed ds [] line [] plain pos bad ∙ unfold parse_lines in refl),
  parse_lines-render [] [] ds (line_of line) order
      ∙ rw (split_lines-append line [] plain) (
          parse_lines-malformed ds [] line (split_lines []) plain pos bad
          ∙ parse_lines-end ds (line ∷ [])),
)

-- A part of a canonical digest that is neither empty nor whole.
pub record IsPart (t d : Bytes) : Type 0 where
  pub rest : Bytes
  pub splits : d ≡ t ++ rest
  pub begun : 0 < length t
  pub unfinished : 0 < length rest

All-front {ℓ κ} : {A : Type ℓ} (P : A → Type κ) (xs ys : List A) → All P (xs ++ ys) → All P xs
All-front P [] ys h = tt
All-front P (x ∷ xs) ys h = (h.0, All-front P xs ys h.1)

module _ {t d : Bytes} (p : IsPart t d) (c : IsCanonical d) where
  part-IsPlain : IsPlain t
  part-IsPlain = All-front IsPlainByte t p.rest (rw p.splits at (IsCanonical-IsPlain c))

  part_length : length t < 71
  part_length =
      let whole : length t + length p.rest ≡ 71 =
        sym (length-append t p.rest) ∙ ap length (sym p.splits) ∙ length-IsCanonical c in
      omega (arith, p.unfinished)

  part-ne-IsCanonical : ¬ IsCanonical t
  part-ne-IsCanonical k = omega (arith, part_length, length-IsCanonical k)

module _ ⦃lib : Stdlib⦄ where
  try_repair_mismatch :
      (w : World) (o : Opened) (split : Option (List Bytes × Bytes))
      → unsnoc o.journal.order ≡ split
      → ((init : List Bytes) (last : Bytes)
          → o.journal.order ≡ init ++ last ∷ []
          → w.register ≢ from_digests_seeded o.journal.seed init)
      → try_repair open_succeeds w o split ≡ diverge w o
  try_repair_mismatch w o none e h = refl
  try_repair_mismatch w o (some (init, last)) e h = rw (
      bytes_eq-false w.register (from_digests_seeded o.journal.seed init)
        (h init last (unsnoc-eq-some o.journal.order init last e)))

  reconcile_mismatch :
      (w : World) (o : Opened)
      → w.register ≢ from_digests_seeded o.journal.seed o.journal.order
      → ((init : List Bytes) (last : Bytes)
          → o.journal.order ≡ init ++ last ∷ []
          → w.register ≢ from_digests_seeded o.journal.seed init)
      → reconcile open_succeeds w o ≡ diverge w o
  unfolding reconcile
  reconcile_mismatch w o whole front =
      rw (bytes_eq-false w.register (from_digests_seeded o.journal.seed o.journal.order) whole)
        (try_repair_mismatch w o (unsnoc o.journal.order) refl front)

  -- The torn line is reported, and the journal is returned as usable.
  open_torn :
      (s : Bytes) (ds : List Bytes) (t : Bytes) (w : World)
      → IsOrder ds
      → IsPlain t
      → 0 < length t
      → ¬ IsCanonical t
      → contents w.dir.file ≡ render ds ++ t
      → w.register ≡ from_digests_seeded s ds
      → open_journal_seeded open_succeeds s w
        ≡ (w, ok (record { journal = journal_of s ds; problems = malformed_entries (t ∷ []) ∷ [] }))
  unfolding open_journal_seeded reconcile
  open_torn s ds t w order plain pos bad file reg = rw (
    file,
    (parse_journal-bad_line ds t order plain pos bad).0,
    (bytes_eq_iff w.register (from_digests_seeded s ds)).1 reg,
  )

  measure_on :
      (d : Bytes) (w : World) (s : Bytes) (ds : List Bytes)
      → IsCanonical d
      → contains ds d ≡ false
      → measure_once all_succeed d w (journal_of s ds) ≡ record {
        world = add_to_world d w;
        journal = add_to_journal d (journal_of s ds);
        result = ok true;
      }
  unfolding measure_once
  measure_on d w s ds c fresh = rw (canonical_digest_self c, fresh)

  reopen_torn :
      (s : Bytes) (ds : List Bytes) (t d : Bytes) (w : World)
      → IsOrder ds
      → IsPlain t
      → 0 < length t
      → IsCanonical d
      → contents w.dir.file ≡ render ds ++ t
      → w.register ≡ from_digests_seeded s ds
      → from_digests_seeded s (ds ++ d ∷ []) ≢ from_digests_seeded s ds
      → ((init : List Bytes) (last : Bytes)
          → ds ≡ init ++ last ∷ []
          → from_digests_seeded s (ds ++ d ∷ []) ≢ from_digests_seeded s init)
      → open_journal_seeded open_succeeds s (add_to_world d w)
        ≡ diverge (add_to_world d w) (loaded s (ds, (t ++ d) ∷ []))
  unfolding open_journal_seeded
  reopen_torn s ds t d w order plain pos c file reg whole front =
      let longer : length (t ++ d) ≡ length t + 71 =
        length-append t d ∙ ap (λ (n : ℕ). length t + n) (length-IsCanonical c) in
      let read : parse_journal (contents w.dir.file ++ line_of d) ≡ (ds, (t ++ d) ∷ []) =
        ap parse_journal (
          ap (λ (b : Bytes). b ++ line_of d) file
          ∙ append_assoc (render ds) t (line_of d)
          ∙ ap (λ (b : Bytes). render ds ++ b) (sym (append_assoc t d (b'\n' ∷ []))))
        ∙ (parse_journal-bad_line ds (t ++ d) order
            (All-append IsPlainByte t d plain (IsCanonical-IsPlain c)) (omega arith)
            (λ k. omega (arith, length-IsCanonical k))).1 in
      let moved : extend w.register (event d) ≡ from_digests_seeded s (ds ++ d ∷ []) =
        ap (λ (r : Bytes). extend r (event d)) reg ∙ sym (fold-concat s ds d) in
      rw read (
        reconcile_mismatch (add_to_world d w) (loaded s (ds, (t ++ d) ∷ []))
          (λ e. whole (sym moved ∙ e)) (λ i l e q. front i l e (sym moved ∙ q)))

  -- A crash that leaves part of a digest as the last line is followed by an open that returns a
  -- usable journal. The next digest measured with it succeeds, is extended into the register, and is
  -- written behind the torn line; so the open after that reports the journal as diverged, provided
  -- that the hash does not send the new register value to that of the older digests or of all but
  -- the last of them.
  pub torn_append_diverges :
      (s : Bytes) (ds : List Bytes) (t torn d : Bytes) (w : World)
      → IsOrder ds
      → IsCanonical torn
      → IsPart t torn
      → IsCanonical d
      → contains ds d ≡ false
      → contents w.dir.file ≡ render ds ++ t
      → w.register ≡ from_digests_seeded s ds
      → from_digests_seeded s (ds ++ d ∷ []) ≢ from_digests_seeded s ds
      → ((init : List Bytes) (last : Bytes)
          → ds ≡ init ++ last ∷ []
          → from_digests_seeded s (ds ++ d ∷ []) ≢ from_digests_seeded s init)
      → (open_journal_seeded open_succeeds s w ≡ (
        w,
        ok (record { journal = journal_of s ds; problems = malformed_entries (t ∷ []) ∷ [] }),
      ))
        × ((measure_once all_succeed d w (journal_of s ds)).result ≡ ok true)
        × ((measure_once all_succeed d w (journal_of s ds)).world.register
            ≡ extend w.register (event d))
        × ((o : Opened) × (open_journal_seeded open_succeeds s
                (measure_once all_succeed d w (journal_of s ds)).world
              ≡ ((measure_once all_succeed d w (journal_of s ds)).world, ok o))
            × (o.journal.diverged ≡ true))
  torn_append_diverges s ds t torn d w order ct p c fresh file reg whole front =
      rw (measure_on d w s ds c fresh) (
        open_torn s ds t w order (part-IsPlain p ct) p.begun (part-ne-IsCanonical p ct) file reg,
        refl,
        refl,
        (
          record {
            journal = record (journal_of s ds) { diverged = true };
            problems = malformed_entries ((t ++ d) ∷ []) ∷ register_diverged ∷ [];
          },
          reopen_torn s ds t d w order (part-IsPlain p ct) p.begun c file reg whole front,
          refl,
        ),
      )
