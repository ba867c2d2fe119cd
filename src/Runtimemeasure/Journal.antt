-- ===== src/Runtimemeasure/Journal.antt =====
-- runtimemeasure/journal.go: the journal of register extends. The directory that holds the file and
-- the register stand in a `World`; how a system call ends is an argument of each operation.
pub mod Files
pub mod Lines
pub mod Open
pub mod Synced
pub mod Restart
pub mod History
pub mod Torn
use attestation_go.Base.{
  ℕ, zero, suc, ◌≡◌, refl, Bool, true, false, not, ◌&&◌, ◌||◌, Option, none, some, List, [], ◌∷◌,
  ◌++◌, Bytes, bytes_eq, contains, length, ◌==◌, if◌then◌else◌, Result, ok, err, Stdlib,
}
use attestation_go.Runtimemeasure.Canonical.{CanonicalError, canonical_digest}
use attestation_go.Runtimemeasure.Fold.{event, extend, from_digests_seeded}
use attestation_go.Runtimemeasure.Journal.Files.{
  Directory, AtomicStep, Append, stored, append_line, write_atomic,
}
use attestation_go.Runtimemeasure.Journal.Lines.{parse_journal, render}

pub record World : Type 0 where
  pub dir : Directory
  pub register : Bytes

-- `seed` is the register's value before any journaled extend; `measured` is the set of the digests
-- known to be extended, as a list.
pub record Journal : Type 0 where
  pub seed : Bytes
  pub measured : List Bytes
  pub order : List Bytes
  pub diverged : Bool

-- How Register.Extend ends. An error leaves the register as it was, or is seen after the extend landed
-- (a failed close).
pub data ExtendEnd : Type 0 where
  extended extend_refused extend_reported : ExtendEnd

unfoldable pub is_extended : ExtendEnd → Bool
is_extended extended = true
is_extended _ = false

-- How the calls of one MeasureOnce end; `rollback` is the call of writeAtomic that fails, and `part`
-- what a failed write of it leaves.
pub record Ends : Type 0 where
  pub append : Append
  pub extend : ExtendEnd
  pub rollback : Option AtomicStep
  pub part : Bytes

abbrev pub all_succeed : Ends
all_succeed = record { append = stored; extend = extended; rollback = none; part = [] }

pub data MeasureError : Type 0 where
  not_canonical : CanonicalError → MeasureError
  refused_diverged record_failed : MeasureError
  extend_failed : Result AtomicStep (Unit {0}) → MeasureError

pub record Measured : Type 0 where
  pub world : World
  pub journal : Journal
  pub result : Result MeasureError Bool

-- A digest and the newline that `record` writes behind it.
abbrev pub line_of : Bytes → Bytes
line_of d = d ++ b'\n' ∷ []

abbrev pub before_last : Bytes → Option (List Bytes × Bytes) → Option (List Bytes × Bytes)
before_last d none = some ([], d)
before_last d (some (init, last)) = some (d ∷ init, last)

-- order[:n-1] and order[n-1]
unfoldable pub unsnoc : List Bytes → Option (List Bytes × Bytes)
unsnoc [] = none
unsnoc (d ∷ ds) = before_last d (unsnoc ds)

abbrev drop_if_last : Bytes → List Bytes → Option (List Bytes × Bytes) → List Bytes
drop_if_last digest order none = order
drop_if_last digest order (some (init, last)) = if bytes_eq last digest then init else order

module _ ⦃lib : Stdlib⦄ where
  unfoldable pub apply_extend : ExtendEnd → Bytes → Bytes → Bytes
  unfolding extend
  apply_extend extended ev reg = extend reg ev
  apply_extend extend_refused ev reg = reg
  apply_extend extend_reported ev reg = extend reg ev

  -- unrecordLast: the order is cut back first, then the file is rewritten.
  unrecord_last : Ends → Bytes → World → Journal → Measured
  unfolding unsnoc render write_atomic
  unrecord_last e digest w j =
      let order = drop_if_last digest j.order (unsnoc j.order) in
      let (dir, rolled) = write_atomic e.rollback e.part (render order) w.dir in
      record {
        world = record w { dir = dir };
        journal = record j { order = order };
        result = err (extend_failed rolled);
      }

  -- The part of MeasureOnce after `record` succeeded.
  extend_recorded : Ends → Bytes → World → Journal → Measured
  unfolding apply_extend unrecord_last is_extended
  extend_recorded e d w j =
      let w' = record w { register = apply_extend e.extend (event d) w.register } in
      if is_extended e.extend
      then record { world = w'; journal = record j { measured = d ∷ j.measured }; result = ok true }
      else unrecord_last e d w' j

  abbrev after_append : Ends → Bytes → World → Journal → Option Bytes × Bool → Measured
  after_append e d w j (file, true) =
      extend_recorded e d (record w { dir = record w.dir { file = file } })
        (record j { order = j.order ++ d ∷ [] })
  after_append e d w j (file, false) = record {
    world = record w { dir = record w.dir { file = file } };
    journal = j;
    result = err record_failed;
  }

  measure_digest : Ends → Bytes → World → Journal → Measured
  unfolding extend_recorded append_line
  measure_digest e d w j =
      if j.diverged
      then record { world = w; journal = j; result = err refused_diverged }
      else if contains j.measured d
      then record { world = w; journal = j; result = ok false }
      else after_append e d w j (append_line e.append (line_of d) w.dir.file)

  abbrev measure_canonical : Ends → World → Journal → Result CanonicalError Bytes → Measured
  measure_canonical e w j (err x) = record {
    world = w;
    journal = j;
    result = err (not_canonical x);
  }
  measure_canonical e w j (ok d) = measure_digest e d w j

  -- Journal.MeasureOnce
  unfoldable pub measure_once : Ends → Bytes → World → Journal → Measured
  unfolding measure_digest
  measure_once e ref w j = measure_canonical e w j (canonical_digest ref)
