-- ===== src/Runtimemeasure/Journal/Files.antt =====
-- The file operations of journal.go: the append of `record`, and `writeAtomic`.
use attestation_go.Base.{
  ℕ, ◌≡◌, refl, ◌⊎◌, inl, inr, Bool, true, false, Option, none, some, [], ◌++◌, Bytes, take, Result,
  ok, err,
}

-- How the append of `record` ends: the open fails, the write fails after some bytes of the line, the
-- sync or the close fails after the whole line, or all succeed.
pub data Append : Type 0 where
  open_failed : Append
  write_failed : ℕ → Append
  sync_failed close_failed stored : Append

-- `none` is a file that does not exist; the open creates it.
abbrev pub contents : Option Bytes → Bytes
contents none = []
contents (some b) = b

-- The file after the append, and whether `record` saw no error.
unfoldable pub append_line : Append → Bytes → Option Bytes → Option Bytes × Bool
append_line open_failed line file = (file, false)
append_line (write_failed n) line file = (some (contents file ++ take n line), false)
append_line sync_failed line file = (some (contents file ++ line), false)
append_line close_failed line file = (some (contents file ++ line), false)
append_line stored line file = (some (contents file ++ line), true)

-- The calls of writeAtomic, in order; the last is syncDir.
pub data AtomicStep : Type 0 where
  create_temp write_temp chmod_temp sync_temp close_temp rename_temp sync_dir : AtomicStep

-- The journal file and the temporary file beside it.
pub record Directory : Type 0 where
  pub file : Option Bytes
  pub temp : Option Bytes

-- The deferred function: the temporary file is removed where it was not renamed away.
abbrev cleanup : Directory → Directory
cleanup d = record d { temp = none }

abbrev renamed : Bytes → Directory → Directory
renamed data' d = record d { file = some data'; temp = none }

-- Where a call fails, the bytes that a failed write has left in the temporary file are `part`.
unfoldable pub write_atomic :
    Option AtomicStep → Bytes → Bytes → Directory → Directory × Result AtomicStep (Unit {0})
write_atomic (some create_temp) part data' d = (d, err create_temp)
write_atomic (some write_temp) part data' d =
    (cleanup (record d { temp = some part }), err write_temp)
write_atomic (some chmod_temp) part data' d =
    (cleanup (record d { temp = some data' }), err chmod_temp)
write_atomic (some sync_temp) part data' d =
    (cleanup (record d { temp = some data' }), err sync_temp)
write_atomic (some close_temp) part data' d =
    (cleanup (record d { temp = some data' }), err close_temp)
write_atomic (some rename_temp) part data' d =
    (cleanup (record d { temp = some data' }), err rename_temp)
write_atomic (some sync_dir) part data' d =
    (renamed data' (record d { temp = some data' }), err sync_dir)
write_atomic none part data' d = (renamed data' (record d { temp = some data' }), ok tt)

-- However writeAtomic ends, no temporary file is left, and the file is the old one, after an error, or
-- the new one, after success or a failed sync of the directory alone; never a mix.
pub write_atomic_lem :
    (fails : Option AtomicStep) (part data' : Bytes) (d : Directory)
    → d.temp ≡ none
    → ((write_atomic fails part data' d).0.temp ≡ none)
      × (((write_atomic fails part data' d).0.file ≡ some data')
            × (((write_atomic fails part data' d).1 ≡ ok tt)
                ⊎ ((write_atomic fails part data' d).1 ≡ err sync_dir))
          ⊎ ((write_atomic fails part data' d).0.file ≡ d.file)
            × ((step : AtomicStep) × ((write_atomic fails part data' d).1 ≡ err step)
                × (fails ≡ some step)))
unfolding write_atomic
write_atomic_lem none part data' d h = (refl, inl (refl, inl refl))
write_atomic_lem (some create_temp) part data' d h = (h, inr (refl, (create_temp, refl, refl)))
write_atomic_lem (some write_temp) part data' d h = (refl, inr (refl, (write_temp, refl, refl)))
write_atomic_lem (some chmod_temp) part data' d h = (refl, inr (refl, (chmod_temp, refl, refl)))
write_atomic_lem (some sync_temp) part data' d h = (refl, inr (refl, (sync_temp, refl, refl)))
write_atomic_lem (some close_temp) part data' d h = (refl, inr (refl, (close_temp, refl, refl)))
write_atomic_lem (some rename_temp) part data' d h = (refl, inr (refl, (rename_temp, refl, refl)))
write_atomic_lem (some sync_dir) part data' d h = (refl, inl (refl, inr refl))
