-- ===== src/Runtimemeasure/Journal/Restart.antt =====
-- What an open makes of the file and the register that it finds.
use attestation_go.Base.{
  ◌≡◌, ◌≢◌, ◌⊎◌, inl, inr, refl, sym, ap, subst, ◌∙◌, true, false, Option, none, some, List, [],
  ◌∷◌, ◌++◌, arith, Bytes, bytes_eq, bytes_eq_iff, bytes_eq_refl, Result, ok, err, Stdlib,
  Bool-cases,
}
use attestation_go.Runtimemeasure.Fold.{event, extend, from_digests_seeded}
use attestation_go.Runtimemeasure.Journal.Files.{contents}
use attestation_go.Runtimemeasure.Journal.Lines.{parse_journal, render}
use attestation_go.Runtimemeasure.Journal.Lines.RoundTrip.{
  IsOrder, parse_journal-render, parse_journal-IsOrder,
}
use attestation_go.Runtimemeasure.Journal.Lines.Reading.{HoldsDigests, parse_journal_sound}
use attestation_go.Runtimemeasure.Journal.Open.{
  OpenEnds, open_succeeds, OpenError, Opened, loaded, finish_extend, try_repair, reconcile,
  open_journal_seeded,
}
use attestation_go.Runtimemeasure.Journal.Synced.{unsnoc-concat, fold-concat}
use attestation_go.Runtimemeasure.Journal.{
  World, Journal, before_last, unsnoc, ExtendEnd, extended, extend_refused, extend_reported,
}

pub bytes_eq-false : (a b : Bytes) → a ≢ b → bytes_eq a b ≡ false
bytes_eq-false a b h = ground (arith, bytes_eq_iff a b)

unsnoc-ne-none : (d : Bytes) (ds : List Bytes) → unsnoc (d ∷ ds) ≢ none
unfolding unsnoc
unsnoc-ne-none d ds h = ground arith

before_last-eq-some :
    (d : Bytes) (ds : List Bytes) (o : Option (List Bytes × Bytes)) {init : List Bytes}
    {last : Bytes}
    → unsnoc ds ≡ o
    → before_last d o ≡ some (init, last)
    → ((i : List Bytes) (l : Bytes) → unsnoc ds ≡ some (i, l) → ds ≡ i ++ l ∷ [])
    → d ∷ ds ≡ init ++ last ∷ []
before_last-eq-some d [] none e h ih = cc
before_last-eq-some d (x ∷ ds) none e h ih = absurd (unsnoc-ne-none x ds e)
before_last-eq-some d ds (some (i, l)) e h ih = let same = ih i l e in rw same (cc)

pub unsnoc-eq-some :
    (ds : List Bytes) (init : List Bytes) (last : Bytes)
    → unsnoc ds ≡ some (init, last)
    → ds ≡ init ++ last ∷ []
unfolding unsnoc
unsnoc-eq-some [] init last h = cc
unsnoc-eq-some (d ∷ ds) init last h =
    before_last-eq-some d ds (unsnoc ds) refl h (λ i l e. unsnoc-eq-some ds i l e)

same_opened : {x y : Opened} → ◌≡◌ {A = Result OpenError Opened} (ok x) (ok y) → x ≡ y
same_opened h = cc h

module _ ⦃lib : Stdlib⦄ where
  -- The journal of a fresh open over recorded digests.
  abbrev pub journal_of : Bytes → List Bytes → Journal
  journal_of s ds = record { seed = s; measured = ds; order = ds; diverged = false }

  -- A file and a register that agree are opened as they are.
  pub open_in_step :
      (s : Bytes) (ds : List Bytes) (w : World)
      → IsOrder ds
      → contents w.dir.file ≡ render ds
      → w.register ≡ from_digests_seeded s ds
      → open_journal_seeded open_succeeds s w
        ≡ (w, ok (record { journal = journal_of s ds; problems = [] }))
  unfolding open_journal_seeded
  open_in_step s ds w order file reg =
      rw (file, parse_journal-render ds order, reg, bytes_eq_refl (from_digests_seeded s ds))

  -- Over a file that holds distinct canonical digests and a register with the fold of all of them but
  -- the last, which is what a crash between the record of a digest and its extend leaves, an open whose
  -- calls all succeed extends the register by the last digest once and returns the journal of all of them
  -- without a problem, provided that this extend moves the register.
  pub open_one_ahead :
      (s : Bytes) (ds : List Bytes) (d : Bytes) (w : World)
      → IsOrder (ds ++ d ∷ [])
      → contents w.dir.file ≡ render (ds ++ d ∷ [])
      → w.register ≡ from_digests_seeded s ds
      → extend w.register (event d) ≢ w.register
      → open_journal_seeded open_succeeds s w ≡ (
        record w { register = extend w.register (event d) },
        ok (record { journal = journal_of s (ds ++ d ∷ []); problems = [] }),
      )
  unfolding open_journal_seeded
  open_one_ahead s ds d w order file reg moves =
      let behind : bytes_eq w.register (from_digests_seeded s (ds ++ d ∷ [])) ≡ false =
        bytes_eq-false _ _
          (λ e. moves (sym (e ∙ fold-concat s ds d ∙ ap (λ r. extend r (event d)) (sym reg)))) in
      let matches : bytes_eq w.register (from_digests_seeded s ds) ≡ true =
        (bytes_eq_iff _ _).1 reg in
      rw (file, parse_journal-render (ds ++ d ∷ []) order, behind, unsnoc-concat ds d, matches)

  -- The journal of an open is diverged, or it stands as it was read and the register has its fold.
  abbrev Settles : Opened → World × Result OpenError Opened → Type 0
  Settles o (w, ok p) =
      (p.journal.diverged ≡ true)
      ⊎ ((p.journal ≡ o.journal)
          × (w.register ≡ from_digests_seeded o.journal.seed o.journal.order))
  Settles o (w, err x) = Unit

  finish_extend-Settles :
      (e : OpenEnds) (init : List Bytes) (last : Bytes) (w : World) (o : Opened)
      → o.journal.order ≡ init ++ last ∷ []
      → w.register ≡ from_digests_seeded o.journal.seed init
      → Settles o (finish_extend e last w o)
  unfolding finish_extend
  finish_extend-Settles e init last w o whole reg =
      let fold : extend w.register (event last)
          ≡ from_digests_seeded o.journal.seed o.journal.order =
        ap (λ r. extend r (event last)) reg
        ∙ sym (fold-concat o.journal.seed init last)
        ∙ ap (λ ds. from_digests_seeded o.journal.seed ds) (sym whole) in
      settle_by_end e.repair refl fold
    where
      settle_by_end :
          (x : ExtendEnd)
          → e.repair ≡ x
          → extend w.register (event last) ≡ from_digests_seeded o.journal.seed o.journal.order
          → Settles o (finish_extend e last w o)
      settle_by_end extended eq fold = rw eq (inr (refl, fold))
      settle_by_end extend_refused eq fold = rw eq tt
      settle_by_end extend_reported eq fold = rw eq tt

  try_repair-Settles :
      (e : OpenEnds) (w : World) (o : Opened) (split : Option (List Bytes × Bytes))
      → unsnoc o.journal.order ≡ split
      → Settles o (try_repair e w o split)
  try_repair-Settles e w o none h = inl refl
  try_repair-Settles e w o (some (init, last)) h =
      elim (Bool-cases (bytes_eq w.register (from_digests_seeded o.journal.seed init))) [
        | inl same ↦ rw same (
            finish_extend-Settles e init last w o (unsnoc-eq-some o.journal.order init last h)
              ((bytes_eq_iff _ _).0 same))
        | inr differs ↦ rw differs (inl refl)
      ]

  reconcile-Settles :
      (e : OpenEnds) (w : World) (o : Opened)
      → e.reads_register ≡ true
      → Settles o (reconcile e w o)
  unfolding reconcile
  reconcile-Settles e w o reads =
      elim (Bool-cases (bytes_eq w.register (from_digests_seeded o.journal.seed o.journal.order))) [
        | inl same ↦ rw (reads, same) (inr (refl, (bytes_eq_iff _ _).0 same))
        | inr differs ↦ rw (reads, differs) (try_repair-Settles e w o (unsnoc o.journal.order) refl)
      ]

  opened :
      (e : OpenEnds) (s : Bytes) (w w' : World) (o : Opened)
      → open_journal_seeded e s w ≡ (w', ok o)
      → reconcile e w (loaded s (parse_journal (contents w.dir.file))) ≡ (w', ok o)
  unfolding open_journal_seeded
  opened e s w w' o h = ground arith

  agrees_not_diverged :
      (e : OpenEnds) (w w' : World) (p o : Opened)
      → e.reads_register ≡ true
      → w.register ≡ from_digests_seeded p.journal.seed p.journal.order
      → p.journal.diverged ≡ false
      → reconcile e w p ≡ (w', ok o)
      → o.journal.diverged ≡ true
      → ⊥
  unfolding reconcile
  agrees_not_diverged e w w' p o reads same fresh ran d =
      let agree : bytes_eq w.register (from_digests_seeded p.journal.seed p.journal.order) ≡ true =
        (bytes_eq_iff _ _).1 same in
      let as_read : reconcile e w p ≡ (w, ok p) = rw (reads, agree) refl in
      let both : ◌≡◌ {A = World × Result OpenError Opened} (w, ok p) (w', ok o) =
        sym as_read ∙ ran in
      let whole : p ≡ o = same_opened (ap (λ x. x.1) both) in
      let flags : p.journal.diverged ≡ o.journal.diverged =
        ap (λ (x : Opened). x.journal.diverged) whole in
      cc (flags, fresh, d)

  -- Over any file and any readable register, an open that succeeds has exactly the digests of the file:
  -- the text is split into lines at its newlines, each digest is a trimmed line that is canonical and
  -- stands there for the first time, in the order of the lines, and every other line repeats a digest or
  -- is not a canonical one. Either the journal is marked as diverged, over a register without the fold of
  -- these digests, or it has these digests, is not diverged and has nothing else measured, and the
  -- register is left with their fold.
  pub open_journal_seeded_sound :
      (e : OpenEnds) (s : Bytes) (w w' : World) (o : Opened)
      → e.reads_register ≡ true
      → open_journal_seeded e s w ≡ (w', ok o)
      → (ds : List Bytes) × HoldsDigests (contents w.dir.file) ds
        × IsOrder ds
        × (((o.journal.diverged ≡ true) × (w.register ≢ from_digests_seeded s ds))
            ⊎ ((o.journal ≡ journal_of s ds) × (w'.register ≡ from_digests_seeded s ds)))
  open_journal_seeded_sound e s w w' o reads h =
      let text = contents w.dir.file in
      let p = loaded s (parse_journal text) in
      let ran : reconcile e w p ≡ (w', ok o) = opened e s w w' o h in
      let settled : Settles p (w', ok o) = subst (Settles p) ran (reconcile-Settles e w p reads) in
      (
        (parse_journal text).0,
        parse_journal_sound text,
        parse_journal-IsOrder text,
        elim settled [
          | inl d ↦ inl (d, λ same. agrees_not_diverged e w w' p o reads same refl ran d)
          | inr (j, r) ↦ inr (j, r)
        ],
      )
