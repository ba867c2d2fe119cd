-- ===== src/Runtimemeasure/Journal/History.antt =====
-- Histories of one register: measurements, restarts of the measurer, and crashes between the record of
-- a digest and its extend.
use attestation_go.Base.{
  ◌≡◌, ◌≢◌, refl, sym, ap, ◌∙◌, false, some, List, [], ◌∷◌, ◌++◌, Bytes, contains, ok, Stdlib,
  arith,
}
use attestation_go.Runtimemeasure.Canonical.Shape.{IsCanonical}
use attestation_go.Runtimemeasure.Fold.{event, extend, from_digests_seeded}
use attestation_go.Runtimemeasure.Journal.Files.{contents}
use attestation_go.Runtimemeasure.Journal.Lines.{render}
use attestation_go.Runtimemeasure.Journal.Lines.RoundTrip.{IsOrder, Follows-concat}
use attestation_go.Runtimemeasure.Journal.Open.{open_succeeds, Opened, open_journal_seeded}
use attestation_go.Runtimemeasure.Journal.Restart.{journal_of, open_in_step, open_one_ahead}
use attestation_go.Runtimemeasure.Journal.Synced.{
  IsSynced, IsClean, measure_once-IsSynced, render-concat, fold-concat,
}
use attestation_go.Runtimemeasure.Journal.{World, Journal, Ends, line_of, measure_once}

pub record State : Type 0 where
  pub world : World
  pub journal : Journal

-- The world after `record` has written a digest, before the extend.
abbrev pub recorded : Bytes → World → World
recorded d w = record w { dir = record w.dir { file = some (contents w.dir.file ++ line_of d) } }

module _ ⦃lib : Stdlib⦄ where
  -- What may happen next, on a guest whose register started from `s`.
  pub data Step (s : Bytes) (a b : State) : Type 0 where
    measured :
        (e : Ends) (ref : Bytes)
        → IsClean e
        → b.world ≡ (measure_once e ref a.world a.journal).world
        → b.journal ≡ (measure_once e ref a.world a.journal).journal
        → Step s a b
    restarted :
        (o : Opened)
        → open_journal_seeded open_succeeds s a.world ≡ (b.world, ok o)
        → b.journal ≡ o.journal
        → Step s a b
    crashed :
        (d : Bytes) (o : Opened)
        → IsCanonical d
        → contains a.journal.order d ≡ false
        → extend a.world.register (event d) ≢ a.world.register
        → open_journal_seeded open_succeeds s (recorded d a.world) ≡ (b.world, ok o)
        → b.journal ≡ o.journal
        → Step s a b

  pub data Reach (s : Bytes) (a : State) : State → Type 0 where
    here : Reach s a a
    next : {b c : State} → Reach s a b → Step s b c → Reach s a c

  pub record IsSound (s : Bytes) (a : State) : Type 0 where
    pub synced : IsSynced a.world a.journal
    pub seeded : a.journal.seed ≡ s

  journal_of-IsSynced :
      (s : Bytes) (ds : List Bytes) (w : World)
      → IsOrder ds
      → contents w.dir.file ≡ render ds
      → w.register ≡ from_digests_seeded s ds
      → IsSynced w (journal_of s ds)
  journal_of-IsSynced s ds w order file reg = record {
    is_order = order;
    measured_same = λ d. refl;
    file_holds = file;
    register_holds = reg;
    not_diverged = refl;
  }

  restarted-IsSound :
      (s : Bytes) (a b : State) (o : Opened)
      → IsSound s a
      → open_journal_seeded open_succeeds s a.world ≡ (b.world, ok o)
      → b.journal ≡ o.journal
      → IsSound s b
  restarted-IsSound s a b o h e j =
      let reg : a.world.register ≡ from_digests_seeded s a.journal.order =
        rw (← h.seeded) h.synced.register_holds in
      let same =
        sym (open_in_step s a.journal.order a.world h.synced.is_order h.synced.file_holds reg)
        ∙ e in
      let w' : a.world ≡ b.world = cc same in
      let j' : journal_of s a.journal.order ≡ b.journal = cc (same, j) in
      record {
        synced =
            rw (← w', ← j')
              (journal_of-IsSynced s a.journal.order a.world h.synced.is_order h.synced.file_holds
                reg);
        seeded = rw (← j') refl;
      }

  seed-measure_once :
      (e : Ends) (ref : Bytes) (w : World) (j : Journal)
      → (measure_once e ref w j).journal.seed ≡ j.seed
  unfolding measure_once
  seed-measure_once e ref w j = ground arith

  crashed-IsSound :
      (s : Bytes) (a b : State) (d : Bytes) (o : Opened)
      → IsSound s a
      → IsCanonical d
      → contains a.journal.order d ≡ false
      → extend a.world.register (event d) ≢ a.world.register
      → open_journal_seeded open_succeeds s (recorded d a.world) ≡ (b.world, ok o)
      → b.journal ≡ o.journal
      → IsSound s b
  crashed-IsSound s a b d o h c fresh moves e j =
      let ds = a.journal.order in
      let order : IsOrder (ds ++ d ∷ []) = Follows-concat [] ds h.synced.is_order c fresh in
      let reg : a.world.register ≡ from_digests_seeded s ds =
        rw (← h.seeded) h.synced.register_holds in
      let file : contents a.world.dir.file ++ line_of d ≡ render (ds ++ d ∷ []) =
        ap (λ (x : Bytes). x ++ line_of d) h.synced.file_holds ∙ sym (render-concat ds d) in
      let w = record (recorded d a.world) { register = extend a.world.register (event d) } in
      let same = sym (open_one_ahead s ds d (recorded d a.world) order file reg moves) ∙ e in
      let w' : w ≡ b.world = cc same in
      let j' : journal_of s (ds ++ d ∷ []) ≡ b.journal = cc (same, j) in
      record {
        synced =
            rw (← w', ← j')
              (journal_of-IsSynced s (ds ++ d ∷ []) w order file
                (ap (λ (r : Bytes). extend r (event d)) reg ∙ sym (fold-concat s ds d)));
        seeded = rw (← j') refl;
      }

  Step-IsSound : (s : Bytes) (a b : State) → IsSound s a → Step s a b → IsSound s b
  Step-IsSound s a b h (measured e ref clean w j) = record {
    synced = rw (w, j) (measure_once-IsSynced e ref clean h.synced);
    seeded = rw (j, seed-measure_once e ref a.world a.journal) h.seeded;
  }
  Step-IsSound s a b h (restarted o e j) = restarted-IsSound s a b o h e j
  Step-IsSound s a b h (crashed d o c fresh moves e j) =
      crashed-IsSound s a b d o h c fresh moves e j

  -- From a state in step, every history ends in step, where a history is made of measurements whose
  -- calls are clean, restarts, and crashes between the record of a new digest and an extend that would
  -- move the register: the register is the fold of the journal's distinct digests, each extended once
  -- and in order, the file holds those digests, and the journal is not diverged.
  pub Reach-IsSound : (s : Bytes) {a b : State} → IsSound s a → Reach s a b → IsSound s b
  Reach-IsSound s h here = h
  Reach-IsSound s h (next r st) = Step-IsSound s _ _ (Reach-IsSound s h r) st
