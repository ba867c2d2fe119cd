-- ===== src/Runtimemeasure/Journal/Synced.antt =====
-- The invariant of the journal, and what MeasureOnce does to it.
use attestation_go.Base.{
  ◌≡◌, ◌⊎◌, inl, inr, refl, true, false, ◌||◌, none, some, List, [], ◌∷◌, ◌++◌, arith, Bytes,
  bytes_eq, bytes_eq_refl, contains, ok, err, Stdlib, Bool-cases, Result-cases,
}
use attestation_go.Runtimemeasure.Canonical.{CanonicalError, canonical_digest}
use attestation_go.Runtimemeasure.Canonical.Shape.{IsCanonical, canonical_digest_sound}
use attestation_go.Runtimemeasure.Fold.{
  event, extend, from_digests_seeded, from_digests_seeded-append,
}
use attestation_go.Runtimemeasure.Journal.Files.{open_failed, stored, contents}
use attestation_go.Runtimemeasure.Journal.Lines.{render}
use attestation_go.Runtimemeasure.Journal.Lines.RoundTrip.{IsOrder, Follows-concat, render-append}
use attestation_go.Runtimemeasure.Journal.{
  World, Journal, extended, extend_refused, Ends, line_of, unsnoc, measure_once, extend_failed,
  not_canonical, record_failed,
}

contains-concat :
    (ds : List Bytes) (d x : Bytes) → contains (ds ++ d ∷ []) x ≡ (bytes_eq d x || contains ds x)
unfolding contains
contains-concat [] d x = refl
contains-concat (y ∷ ds) d x = ground (arith, contains-concat ds d x)

pub unsnoc-concat : (ds : List Bytes) (d : Bytes) → unsnoc (ds ++ d ∷ []) ≡ some (ds, d)
unfolding unsnoc
unsnoc-concat [] d = refl
unsnoc-concat (x ∷ ds) d = rw (unsnoc-concat ds d)

pub render-concat : (ds : List Bytes) (d : Bytes) → render (ds ++ d ∷ []) ≡ render ds ++ line_of d
unfolding render
render-concat ds d = render-append ds (d ∷ [])

module _ ⦃lib : Stdlib⦄ where
  -- The file and the register hold what the journal records, neither more nor less.
  pub record IsSynced (w : World) (j : Journal) : Type 0 where
    pub is_order : IsOrder j.order
    pub measured_same : (d : Bytes) → contains j.measured d ≡ contains j.order d
    pub file_holds : contents w.dir.file ≡ render j.order
    pub register_holds : w.register ≡ from_digests_seeded j.seed j.order
    pub not_diverged : j.diverged ≡ false

  -- A world and a journal after one more digest was recorded and extended.
  abbrev pub add_to_world : Bytes → World → World
  add_to_world d w = record {
    dir = record w.dir { file = some (contents w.dir.file ++ line_of d) };
    register = extend w.register (event d);
  }

  abbrev pub add_to_journal : Bytes → Journal → Journal
  add_to_journal d j = record j { measured = d ∷ j.measured; order = j.order ++ d ∷ [] }

  pub fold-concat :
      (s : Bytes) (ds : List Bytes) (d : Bytes)
      → from_digests_seeded s (ds ++ d ∷ []) ≡ extend (from_digests_seeded s ds) (event d)
  unfolding from_digests_seeded
  fold-concat s ds d = from_digests_seeded-append s ds (d ∷ [])

  pub IsSynced-add :
      {d : Bytes} {w : World} {j : Journal}
      → IsSynced w j
      → IsCanonical d
      → contains j.order d ≡ false
      → IsSynced (add_to_world d w) (add_to_journal d j)
  unfolding contains
  IsSynced-add {d} {w} {j} s c f = record {
    is_order = Follows-concat [] j.order s.is_order c f;
    measured_same = λ x. rw (contains-concat j.order d x, s.measured_same x);
    file_holds = rw (render-concat j.order d, s.file_holds);
    register_holds = rw (fold-concat j.seed j.order d, s.register_holds);
    not_diverged = s.not_diverged;
  }

  -- A digest that the journal records is not extended again, and nothing changes.
  pub measure_once_known :
      (e : Ends) (ref : Bytes) {d : Bytes} {w : World} {j : Journal}
      → IsSynced w j
      → canonical_digest ref ≡ ok d
      → contains j.order d ≡ true
      → measure_once e ref w j ≡ record { world = w; journal = j; result = ok false }
  unfolding measure_once
  measure_once_known e ref {d} {w} {j} s c known = rw (c, s.not_diverged, s.measured_same d, known)

  -- A digest that the journal does not record is written, extended once and recorded.
  pub measure_once_fresh :
      (e : Ends) (ref : Bytes) {d : Bytes} {w : World} {j : Journal}
      → IsSynced w j
      → e.append ≡ stored
      → e.extend ≡ extended
      → canonical_digest ref ≡ ok d
      → contains j.order d ≡ false
      → measure_once e ref w j
        ≡ record { world = add_to_world d w; journal = add_to_journal d j; result = ok true }
  unfolding measure_once
  measure_once_fresh e ref {d} {w} {j} s a x c fresh =
      rw (c, s.not_diverged, s.measured_same d, fresh, a, x)

  -- A refused extend is rolled back: the journal and the register are as they were, and the file
  -- holds the journal's text.
  pub measure_once_refused :
      (e : Ends) (ref : Bytes) {d : Bytes} {w : World} {j : Journal}
      → IsSynced w j
      → e.append ≡ stored
      → e.extend ≡ extend_refused
      → e.rollback ≡ none
      → canonical_digest ref ≡ ok d
      → contains j.order d ≡ false
      → measure_once e ref w j ≡ record {
        world = record w { dir = record { file = some (render j.order); temp = none } };
        journal = j;
        result = err (extend_failed (ok tt));
      }
  unfolding measure_once
  measure_once_refused e ref {d} {w} {j} s a x r c fresh = rw (
    c,
    s.not_diverged,
    s.measured_same d,
    fresh,
    a,
    x,
    unsnoc-concat j.order d,
    r,
    bytes_eq_refl d,
  )

  -- The ways in which the calls of one MeasureOnce may end: the append does all of its work or none,
  -- an extend that reports an error has not landed, and the rollback succeeds.
  pub record IsClean (e : Ends) : Type 0 where
    pub append_whole : (e.append ≡ stored) ⊎ (e.append ≡ open_failed)
    pub extend_whole : (e.extend ≡ extended) ⊎ (e.extend ≡ extend_refused)
    pub rolls_back : e.rollback ≡ none

  measure_once_not_canonical :
      (e : Ends) (ref : Bytes) {x : CanonicalError} {w : World} {j : Journal}
      → canonical_digest ref ≡ err x
      → measure_once e ref w j ≡ record { world = w; journal = j; result = err (not_canonical x) }
  unfolding measure_once
  measure_once_not_canonical e ref c = rw c

  measure_once_not_recorded :
      (e : Ends) (ref : Bytes) {d : Bytes} {w : World} {j : Journal}
      → IsSynced w j
      → e.append ≡ open_failed
      → canonical_digest ref ≡ ok d
      → contains j.order d ≡ false
      → measure_once e ref w j ≡ record { world = w; journal = j; result = err record_failed }
  unfolding measure_once
  measure_once_not_recorded e ref {d} {w} {j} s a c fresh =
      rw (c, s.not_diverged, s.measured_same d, fresh, a)

  measure_fresh-IsSynced :
      (e : Ends) (ref : Bytes) {d : Bytes} {w : World} {j : Journal}
      → IsClean e
      → IsSynced w j
      → canonical_digest ref ≡ ok d
      → contains j.order d ≡ false
      → IsSynced (measure_once e ref w j).world (measure_once e ref w j).journal
  measure_fresh-IsSynced e ref {d} {w} {j} clean s c fresh = elim clean.append_whole [
    | inr a ↦ rw (measure_once_not_recorded e ref s a c fresh) s
    | inl a ↦ elim clean.extend_whole [
      | inl x ↦
          rw (measure_once_fresh e ref s a x c fresh)
            (IsSynced-add s (canonical_digest_sound ref c).canonical fresh)
      | inr x ↦ rw (measure_once_refused e ref s a x clean.rolls_back c fresh) (record {
        is_order = s.is_order;
        measured_same = s.measured_same;
        file_holds = refl;
        register_holds = s.register_holds;
        not_diverged = s.not_diverged;
      })
    ]
  ]

  -- The journal stays in step with the file and the register over every MeasureOnce whose calls
  -- are clean, whatever the reference.
  pub measure_once-IsSynced :
      (e : Ends) (ref : Bytes) {w : World} {j : Journal}
      → IsClean e
      → IsSynced w j
      → IsSynced (measure_once e ref w j).world (measure_once e ref w j).journal
  measure_once-IsSynced e ref {w} {j} clean s = elim (Result-cases (canonical_digest ref)) [
    | inr (x, c) ↦ rw (measure_once_not_canonical e ref c) s
    | inl (d, c) ↦ elim (Bool-cases (contains j.order d)) [
      | inl known ↦ rw (measure_once_known e ref s c known) s
      | inr fresh ↦ measure_fresh-IsSynced e ref clean s c fresh
    ]
  ]
