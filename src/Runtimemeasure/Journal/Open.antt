-- ===== src/Runtimemeasure/Journal/Open.antt =====
-- OpenJournalSeeded, OpenJournal, ReadJournal and reconcile of journal.go.
use attestation_go.Base.{
  Bool, true, false, not, Option, none, some, List, [], ◌∷◌, ◌++◌, Bytes, bytes_eq, if◌then◌else◌,
  Result, ok, err, Stdlib,
}
use attestation_go.Runtimemeasure.Fold.{event, from_digests_seeded, zero_register}
use attestation_go.Runtimemeasure.Journal.Files.{contents}
use attestation_go.Runtimemeasure.Journal.Lines.{parse_journal}
use attestation_go.Runtimemeasure.Journal.{
  World, Journal, ExtendEnd, is_extended, apply_extend, unsnoc,
}

-- How the calls of one open end: whether a register is given, the directory can be made, the file
-- read and the register read, and how the repairing extend ends.
pub record OpenEnds : Type 0 where
  pub has_register : Bool
  pub makes_dir : Bool
  pub reads_file : Bool
  pub reads_register : Bool
  pub repair : ExtendEnd

abbrev pub open_succeeds : OpenEnds
open_succeeds = record {
  has_register = true;
  makes_dir = true;
  reads_file = true;
  reads_register = true;
  repair = ExtendEnd.extended;
}

-- What an open reports beside a usable journal.
pub data Problem : Type 0 where
  malformed_entries : List Bytes → Problem
  register_unreadable register_diverged : Problem

pub data OpenError : Type 0 where
  no_register mkdir_failed read_failed : OpenError
  repair_failed : Bytes → OpenError

pub record Opened : Type 0 where
  pub journal : Journal
  pub problems : List Problem

abbrev pub skip_report : List Bytes → List Problem
skip_report [] = []
skip_report (l ∷ ls) = malformed_entries (l ∷ ls) ∷ []

module _ ⦃lib : Stdlib⦄ where
  abbrev pub diverge : World → Opened → World × Result OpenError Opened
  diverge w o = (
    w,
    ok (record {
      journal = record o.journal { diverged = true };
      problems = o.problems ++ register_diverged ∷ [];
    }),
  )

  unfoldable pub finish_extend : OpenEnds → Bytes → World → Opened → World × Result OpenError Opened
  unfolding apply_extend is_extended
  finish_extend e last w o =
      let w' = record w { register = apply_extend e.repair (event last) w.register } in
      (w', if is_extended e.repair then ok o else err (repair_failed last))

  abbrev pub try_repair :
      OpenEnds → World → Opened → Option (List Bytes × Bytes) → World × Result OpenError Opened
  try_repair e w o none = diverge w o
  try_repair e w o (some (init, last)) =
      if bytes_eq w.register (from_digests_seeded o.journal.seed init)
      then finish_extend e last w o
      else diverge w o

  unfoldable pub reconcile : OpenEnds → World → Opened → World × Result OpenError Opened
  unfolding finish_extend unsnoc
  reconcile e w o =
      if e.reads_register
      then (if bytes_eq w.register (from_digests_seeded o.journal.seed o.journal.order)
          then (w, ok o)
          else try_repair e w o (unsnoc o.journal.order))
      else (w, ok (record o { problems = o.problems ++ register_unreadable ∷ [] }))

  -- The journal that a parsed file gives, with the lines that were skipped.
  abbrev pub loaded : Bytes → List Bytes × List Bytes → Opened
  loaded s (order, skipped) = record {
    journal = record { seed = s; measured = order; order = order; diverged = false };
    problems = skip_report skipped;
  }

  -- OpenJournalSeeded; a file that does not exist is read as empty.
  unfoldable pub open_journal_seeded : OpenEnds → Bytes → World → World × Result OpenError Opened
  unfolding reconcile
  open_journal_seeded e s w =
      if not e.has_register
      then (w, err no_register)
      else if not e.makes_dir
      then (w, err mkdir_failed)
      else if not e.reads_file
      then (w, err read_failed)
      else reconcile e w (loaded s (parse_journal (contents w.dir.file)))

  -- OpenJournal
  unfoldable pub open_journal : OpenEnds → World → World × Result OpenError Opened
  unfolding open_journal_seeded
  open_journal e w = open_journal_seeded e zero_register w

-- ReadJournal; the flag tells whether the file can be read where it exists.
unfoldable pub read_journal : Bool → World → Result OpenError (List Bytes)
read_journal reads w = elim w.dir.file [
  | none ↦ ok []
  | some b ↦ if reads then ok (parse_journal b).0 else err OpenError.read_failed
]
