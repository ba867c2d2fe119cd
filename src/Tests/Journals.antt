-- ===== src/Tests/Journals.antt =====
-- The journal on two digests, over the checksum of the tests.
use attestation_go.Base.{
  ◌≡◌, ◌≢◌, ◌⊎◌, inl, inr, refl, sym, ap, true, false, none, some, List, [], ◌∷◌, ◌++◌, Bytes,
  codes, contains, bytes_eq, take, replicate, ok, err, arith,
}
use attestation_go.Teetypes.Digest.{all_lower_hex}
use attestation_go.Runtimemeasure.Canonical.{canonical_digest}
use attestation_go.Runtimemeasure.Canonical.Shape.{
  IsCanonical, canonical_digest_iff, canonical_digest_self,
}
use attestation_go.Runtimemeasure.Fold.{zero_register, event, extend, from_digests_seeded}
use attestation_go.Runtimemeasure.Journal.Files.{
  AtomicStep, sync_temp, stored, write_atomic, write_atomic_lem,
}
use attestation_go.Runtimemeasure.Journal.Lines.{parse_journal, render}
use attestation_go.Runtimemeasure.Journal.Lines.RoundTrip.{
  IsOrder, parse_journal-render, parse_journal-IsOrder,
}
use attestation_go.Runtimemeasure.Journal.Open.{
  open_succeeds, Opened, malformed_entries, open_journal_seeded,
}
use attestation_go.Runtimemeasure.Journal.Restart.{
  journal_of, open_in_step, open_one_ahead, open_journal_seeded_sound,
}
use attestation_go.Runtimemeasure.Journal.Synced.{
  IsSynced, IsClean, add_to_world, add_to_journal, measure_once_known, measure_once_fresh,
  measure_once_refused, measure_once-IsSynced,
}
use attestation_go.Runtimemeasure.Journal.History.{
  State, recorded, Step, measured, crashed, Reach, here, next, IsSound, Reach-IsSound,
}
use attestation_go.Runtimemeasure.Journal.Torn.{IsPart, torn_append_diverges}
use attestation_go.Runtimemeasure.Journal.{
  World, extend_refused, Ends, Measured, all_succeed, extend_failed, measure_once,
}
use attestation_go.Runtimemeasure.Journal.Lines.Reading.{HoldsDigests}
use attestation_go.Tests.{toy, digest_a, digest_b}

pub IsCanonical-a : IsCanonical digest_a
unfolding all_lower_hex
IsCanonical-a = record {
  hex = replicate 64 b'a';
  is_prefixed = refl;
  length_hex = refl;
  lower = refl;
}

pub IsCanonical-b : IsCanonical digest_b
unfolding all_lower_hex
IsCanonical-b = record {
  hex = replicate 64 b'b';
  is_prefixed = refl;
  length_hex = refl;
  lower = refl;
}

fresh_b : contains (digest_a ∷ []) digest_b ≡ false
unfolding contains bytes_eq
fresh_b = refl

IsOrder-a : IsOrder (digest_a ∷ [])
unfolding contains
IsOrder-a = (IsCanonical-a, refl, tt)

IsOrder-b : IsOrder (digest_b ∷ [])
unfolding contains
IsOrder-b = (IsCanonical-b, refl, tt)

IsOrder-ab : IsOrder (digest_a ∷ digest_b ∷ [])
unfolding contains bytes_eq
IsOrder-ab = (IsCanonical-a, refl, (IsCanonical-b, refl, tt))

abbrev boot : World
boot = record { dir = record { file = none; temp = none }; register = zero_register }

abbrev start : State
start = record { world = boot; journal = journal_of ⦃lib = toy⦄ zero_register [] }

start-IsSound : IsSound ⦃lib = toy⦄ zero_register start
unfolding render from_digests_seeded
start-IsSound = record {
  synced = record {
    is_order = tt;
    measured_same = λ d. refl;
    file_holds = refl;
    register_holds = refl;
    not_diverged = refl;
  };
  seeded = refl;
}

clean : IsClean ⦃lib = toy⦄ all_succeed
clean = record { append_whole = inl refl; extend_whole = inl refl; rolls_back = refl }

-- The world after the first digest, and after a crash behind the record of the second and a restart.
abbrev one : World
one = add_to_world ⦃lib = toy⦄ digest_a boot

abbrev two : World
two = record (recorded digest_b one) {
  register = extend ⦃lib = toy⦄ one.register (event ⦃lib = toy⦄ digest_b);
}

abbrev after_crash : State
after_crash = record {
  world = two;
  journal = journal_of ⦃lib = toy⦄ zero_register (digest_a ∷ digest_b ∷ []);
}

measured_a : measure_once ⦃lib = toy⦄ all_succeed digest_a boot start.journal ≡ record {
  world = one;
  journal = journal_of ⦃lib = toy⦄ zero_register (digest_a ∷ []);
  result = ok true;
}
unfolding contains
measured_a =
    measure_once_fresh ⦃lib = toy⦄ all_succeed digest_a start-IsSound.synced refl refl
      (canonical_digest_self IsCanonical-a) refl

register_one : one.register ≡ from_digests_seeded ⦃lib = toy⦄ zero_register (digest_a ∷ [])
unfolding from_digests_seeded
register_one = refl

file_one : (some (render (digest_a ∷ []))) ≡ one.dir.file
unfolding render
file_one = refl

moves : extend ⦃lib = toy⦄ one.register (event ⦃lib = toy⦄ digest_b) ≢ one.register
unfolding extend event
moves h = cc h

open_one_ahead_example :
    open_journal_seeded ⦃lib = toy⦄ open_succeeds zero_register (recorded digest_b one)
    ≡ (two, ok (record { journal = after_crash.journal; problems = [] }))
unfolding render from_digests_seeded
open_one_ahead_example =
    open_one_ahead ⦃lib = toy⦄ zero_register (digest_a ∷ []) digest_b (recorded digest_b one)
      IsOrder-ab refl refl moves

abbrev after_a : State
after_a = record { world = one; journal = journal_of ⦃lib = toy⦄ zero_register (digest_a ∷ []) }

measure_step : Step ⦃lib = toy⦄ zero_register start after_a
measure_step =
    measured all_succeed digest_a clean (ap (λ (m : Measured). m.world) (sym measured_a))
      (ap (λ (m : Measured). m.journal) (sym measured_a))

crash_step : Step ⦃lib = toy⦄ zero_register after_a after_crash
crash_step =
    crashed digest_b (record { journal = after_crash.journal; problems = [] }) IsCanonical-b fresh_b
      moves open_one_ahead_example refl

history : Reach ⦃lib = toy⦄ zero_register start after_crash
history = next (next here measure_step) crash_step

Reach-IsSound_example : IsSound ⦃lib = toy⦄ zero_register after_crash
Reach-IsSound_example = Reach-IsSound ⦃lib = toy⦄ zero_register start-IsSound history

reopened : open_journal_seeded ⦃lib = toy⦄ open_succeeds zero_register one ≡ (
  one,
  ok (record { journal = journal_of ⦃lib = toy⦄ zero_register (digest_a ∷ []); problems = [] }),
)
unfolding render from_digests_seeded
reopened = open_in_step ⦃lib = toy⦄ zero_register (digest_a ∷ []) one IsOrder-a refl refl

abbrev opened_one : Opened
opened_one = record {
  journal = journal_of ⦃lib = toy⦄ zero_register (digest_a ∷ []);
  problems = [];
}

open_journal_seeded_sound_example :
    (ds : List Bytes) × HoldsDigests (digest_a ++ b'\n' ∷ []) ds
    × IsOrder ds
    × (((opened_one.journal.diverged ≡ true)
          × (one.register ≢ from_digests_seeded ⦃lib = toy⦄ zero_register ds))
        ⊎ ((opened_one.journal ≡ journal_of ⦃lib = toy⦄ zero_register ds)
            × (one.register ≡ from_digests_seeded ⦃lib = toy⦄ zero_register ds)))
open_journal_seeded_sound_example =
    open_journal_seeded_sound ⦃lib = toy⦄ open_succeeds zero_register one one opened_one refl
      reopened

IsSynced-one : IsSynced ⦃lib = toy⦄ one (journal_of ⦃lib = toy⦄ zero_register (digest_a ∷ []))
unfolding render from_digests_seeded
IsSynced-one = record {
  is_order = IsOrder-a;
  measured_same = λ d. refl;
  file_holds = refl;
  register_holds = refl;
  not_diverged = refl;
}

known_a : contains (digest_a ∷ []) digest_a ≡ true
unfolding contains bytes_eq
known_a = refl

measured_again :
    measure_once ⦃lib = toy⦄ all_succeed digest_a one opened_one.journal
    ≡ record { world = one; journal = opened_one.journal; result = ok false }
measured_again =
    measure_once_known ⦃lib = toy⦄ all_succeed digest_a IsSynced-one
      (canonical_digest_self IsCanonical-a) known_a

measures_a_fresh_digest :
    measure_once ⦃lib = toy⦄ all_succeed digest_b one opened_one.journal ≡ record {
      world = add_to_world ⦃lib = toy⦄ digest_b one;
      journal = add_to_journal ⦃lib = toy⦄ digest_b opened_one.journal;
      result = ok true;
    }
measures_a_fresh_digest =
    measure_once_fresh ⦃lib = toy⦄ all_succeed digest_b IsSynced-one refl refl
      (canonical_digest_self IsCanonical-b) fresh_b

abbrev refusing : Ends
refusing = record { append = stored; extend = extend_refused; rollback = none; part = [] }

refused_measurement : measure_once ⦃lib = toy⦄ refusing digest_b one opened_one.journal ≡ record {
  world = record one { dir = record { file = some (render (digest_a ∷ [])); temp = none } };
  journal = opened_one.journal;
  result = err (extend_failed (ok tt));
}
refused_measurement =
    measure_once_refused ⦃lib = toy⦄ refusing digest_b IsSynced-one refl refl refl
      (canonical_digest_self IsCanonical-b) fresh_b

still_in_step :
    IsSynced ⦃lib = toy⦄
      (measure_once ⦃lib = toy⦄ all_succeed digest_b one opened_one.journal).world
      (measure_once ⦃lib = toy⦄ all_succeed digest_b one opened_one.journal).journal
still_in_step = measure_once-IsSynced ⦃lib = toy⦄ all_succeed digest_b clean IsSynced-one

canonical_digest_iff_example : canonical_digest (codes "app@" ++ digest_a) ≡ ok digest_a
canonical_digest_iff_example =
    (canonical_digest_iff (codes "app@" ++ digest_a) digest_a).1
      (record { canonical = IsCanonical-a; spelled = inr (codes "app", (λ h. cc h), refl) })

parse_journal-render_example :
    parse_journal (render (digest_a ∷ digest_b ∷ [])) ≡ (digest_a ∷ digest_b ∷ [], [])
parse_journal-render_example = parse_journal-render (digest_a ∷ digest_b ∷ []) IsOrder-ab

IsOrder-of_junk : IsOrder (parse_journal (codes "junk\n" ++ digest_a)).0
IsOrder-of_junk = parse_journal-IsOrder (codes "junk\n" ++ digest_a)

refused_sync_keeps_file :
    ((write_atomic (some sync_temp) [] digest_b one.dir).0.temp ≡ none)
    × (((write_atomic (some sync_temp) [] digest_b one.dir).0.file ≡ some digest_b)
          × (((write_atomic (some sync_temp) [] digest_b one.dir).1 ≡ ok tt)
              ⊎ ((write_atomic (some sync_temp) [] digest_b one.dir).1 ≡ err AtomicStep.sync_dir))
        ⊎ ((write_atomic (some sync_temp) [] digest_b one.dir).0.file ≡ one.dir.file)
          × ((step : AtomicStep) × ((write_atomic (some sync_temp) [] digest_b one.dir).1
                ≡ err step)
              × (some sync_temp ≡ some step)))
refused_sync_keeps_file = write_atomic_lem (some sync_temp) [] digest_b one.dir refl

-- A crash in the append of `digest_b` that leaves ten bytes of it.
abbrev torn_file : World
torn_file = record one {
  dir = record { file = some (render (digest_a ∷ []) ++ take 10 digest_b); temp = none };
}

abbrev digest_c : Bytes
digest_c = codes "sha256:" ++ replicate 64 b'c'

IsCanonical-c : IsCanonical digest_c
unfolding all_lower_hex
IsCanonical-c = record {
  hex = replicate 64 b'c';
  is_prefixed = refl;
  length_hex = refl;
  lower = refl;
}

IsPart-b : IsPart (take 10 digest_b) digest_b
IsPart-b = record {
  rest = replicate 61 b'b';
  splits = refl;
  begun = omega arith;
  unfinished = omega arith;
}

fresh_c : contains (digest_a ∷ []) digest_c ≡ false
unfolding contains bytes_eq
fresh_c = refl

moved :
    from_digests_seeded ⦃lib = toy⦄ zero_register (digest_a ∷ digest_c ∷ [])
    ≢ from_digests_seeded ⦃lib = toy⦄ zero_register (digest_a ∷ [])
unfolding from_digests_seeded extend event
moved h = cc h

moved_front :
    (init : List Bytes) (last : Bytes)
    → digest_a ∷ [] ≡ init ++ last ∷ []
    → from_digests_seeded ⦃lib = toy⦄ zero_register (digest_a ∷ digest_c ∷ [])
      ≢ from_digests_seeded ⦃lib = toy⦄ zero_register init
unfolding from_digests_seeded extend event
moved_front [] last h k = cc k
moved_front (x ∷ []) last h k = cc h
moved_front (x ∷ y ∷ init) last h k = cc h

torn_append_diverges_example :
    (open_journal_seeded ⦃lib = toy⦄ open_succeeds zero_register torn_file ≡ (
      torn_file,
      ok (record {
        journal = opened_one.journal;
        problems = malformed_entries (take 10 digest_b ∷ []) ∷ [];
      }),
    ))
    × ((measure_once ⦃lib = toy⦄ all_succeed digest_c torn_file opened_one.journal).result
        ≡ ok true)
    × ((measure_once ⦃lib = toy⦄ all_succeed digest_c torn_file opened_one.journal).world.register
        ≡ extend ⦃lib = toy⦄ torn_file.register (event ⦃lib = toy⦄ digest_c))
    × ((o : Opened) × (open_journal_seeded ⦃lib = toy⦄ open_succeeds zero_register
            (measure_once ⦃lib = toy⦄ all_succeed digest_c torn_file opened_one.journal).world
          ≡ (
            (measure_once ⦃lib = toy⦄ all_succeed digest_c torn_file opened_one.journal).world,
            ok o,
          ))
        × (o.journal.diverged ≡ true))
torn_append_diverges_example =
    torn_append_diverges ⦃lib = toy⦄ zero_register (digest_a ∷ []) (take 10 digest_b) digest_b
      digest_c torn_file IsOrder-a IsCanonical-b IsPart-b IsCanonical-c fresh_c refl register_one
      moved moved_front
