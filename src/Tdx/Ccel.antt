-- ===== src/Tdx/Ccel.antt =====
-- attestation/tdx/ccel.go: the CC event log, its replay into the four registers, and their comparison with
-- the quote's.
pub mod Replay
pub mod Log
use attestation_go.Base.{
  ℕ, zero, suc, ◌+◌, ◌-◌, Bool, true, false, not, ◌&&◌, ◌||◌, Option, none, some, List, [], ◌∷◌,
  ◌++◌, Bytes, bytes_eq, length, replicate, slice, little_endian, ltb, leb, ◌==◌, if◌then◌else◌,
  Result, ok, err, ◌>>=◌, ◌>>◌, refuse_if, Stdlib,
}

pub data CcelError : Type 0 where
  data_too_short spec_id_too_long : ℕ → CcelError
  unsupported_algorithm : ℕ → ℕ → CcelError
  wrong_rtmr_width : ℕ → ℕ → CcelError
  rtmr_mismatch : ℕ → Bytes → Bytes → CcelError

pub record CcelEvent : Type 0 where
  pub mr_index : ℕ
  pub event_type : ℕ
  pub sha384_digest : Bytes
  pub event_data : Bytes

abbrev pub max_digest_algorithms : ℕ
max_digest_algorithms = 16

abbrev pub algo_sha384 : ℕ
algo_sha384 = 12

-- digestSize: SHA-384, SHA-512, SHA-256 and SHA-1.
unfoldable pub digest_size : ℕ → Option ℕ
digest_size algo =
    if algo == algo_sha384
    then some 48
    else if algo == 13
    then some 64
    else if algo == 11
    then some 32
    else if algo == 4
    then some 20
    else none

-- exceeds, at an offset that is not negative.
abbrev pub exceeds : Bytes → ℕ → ℕ → Bool
exceeds b off n = ltb (length b) (off + n)

-- What the digests of an event come to: the offset after them with the SHA-384 digest, or their end lies
-- past the data.
pub data Digests : Type 0 where
  truncated : Digests
  digests : ℕ → Bytes → Digests

-- One digest of an event, by the size of its algorithm; `next` reads the rest.
abbrev pub one_digest :
    Option ℕ
    → Bytes
    → ℕ
    → ℕ
    → Bytes
    → (ℕ → Bytes → Result CcelError Digests)
    → Result CcelError Digests
one_digest none d pos algo found next = err (unsupported_algorithm algo (pos + 2))
one_digest (some size) d pos algo found next =
    if exceeds d (pos + 2) size
    then ok truncated
    else next (pos + 2 + size) (if algo == algo_sha384 then slice d (pos + 2) size else found)

-- The loop over the digests of an event; a later SHA-384 digest replaces an earlier.
unfoldable pub read_digests : Bytes → ℕ → ℕ → Bytes → Result CcelError Digests
unfolding digest_size little_endian
read_digests d zero pos found = ok (digests pos found)
read_digests d (suc n) pos found =
    let algo = little_endian (slice d pos 2) in
    if exceeds d pos 2
    then ok truncated
    else one_digest (digest_size algo) d pos algo found (read_digests d n)

-- One round of the loop of ParseCCEL: the events end here, or there is one (kept when it has a SHA-384
-- digest) and the offset after it.
pub data Round : Type 0 where
  ended : Round
  parsed : Option CcelEvent → ℕ → Round

event_of : ℕ → ℕ → Bytes → Bytes → Option CcelEvent
event_of mr kind digest payload =
    if length digest == 0
    then none
    else some
        (record { mr_index = mr; event_type = kind; sha384_digest = digest; event_data = payload })

-- From the size of the event data on.
unfoldable pub finish_event : Bytes → ℕ → ℕ → Digests → Round
unfolding event_of little_endian
finish_event d mr kind truncated = ended
finish_event d mr kind (digests pos found) =
    let size = little_endian (slice d pos 4) in
    if exceeds d pos 4 || exceeds d (pos + 4) size || (kind == 0 && mr == 0 && size == 0)
    then ended
    else parsed (event_of mr kind found (slice d (pos + 4) size)) (pos + 4 + size)

unfoldable pub read_event : Bytes → ℕ → Result CcelError Round
unfolding read_digests finish_event little_endian
read_event d off =
    if exceeds d off 12 || ltb max_digest_algorithms (little_endian (slice d (off + 8) 4))
    then ok ended
    else (read_digests d (little_endian (slice d (off + 8) 4)) (off + 12) [] >>= λ ds.
        ok
          (finish_event d (little_endian (slice d off 4)) (little_endian (slice d (off + 4) 4)) ds))

abbrev pub keep : Option CcelEvent → List CcelEvent → List CcelEvent
keep none es = es
keep (some e) es = e ∷ es

abbrev pub continue :
    (ℕ → Result CcelError (List CcelEvent)) → Round → Result CcelError (List CcelEvent)
continue next ended = ok []
continue next (parsed e off) = next off >>= λ es. ok (keep e es)

-- The loop of ParseCCEL, at an offset. Each round that goes on moves the offset, so that fuel of the length
-- of the data is enough.
unfoldable pub read_events : ℕ → Bytes → ℕ → Result CcelError (List CcelEvent)
unfolding read_event
read_events zero d off = ok []
read_events (suc fuel) d off =
    if leb (length d) off then ok [] else (read_event d off >>= continue (read_events fuel d))

-- ParseCCEL
unfoldable pub parse_ccel : Bytes → Result CcelError (List CcelEvent)
unfolding read_events little_endian
parse_ccel d = do
  refuse_if (ltb (length d) 32) (data_too_short (length d))
  let event_size = little_endian (slice d 28 4)
  refuse_if (ltb (length d) (32 + event_size)) (spec_id_too_long event_size)
  read_events (length d) d (32 + event_size)

pub record Rtmrs : Type 0 where
  pub rtmr0 : Bytes
  pub rtmr1 : Bytes
  pub rtmr2 : Bytes
  pub rtmr3 : Bytes

abbrev pub zero_rtmr : Bytes
zero_rtmr = replicate 48 0

module _ ⦃lib : Stdlib⦄ where
  -- One event: MR indices 1 to 4 are the registers, any other is none of them.
  unfoldable pub replay_event : CcelEvent → Rtmrs → Rtmrs
  replay_event e s =
      if e.mr_index == 1
      then record {
        rtmr0 = lib.sha384 (s.rtmr0 ++ e.sha384_digest);
        rtmr1 = s.rtmr1;
        rtmr2 = s.rtmr2;
        rtmr3 = s.rtmr3;
      }
      else if e.mr_index == 2
      then record {
        rtmr0 = s.rtmr0;
        rtmr1 = lib.sha384 (s.rtmr1 ++ e.sha384_digest);
        rtmr2 = s.rtmr2;
        rtmr3 = s.rtmr3;
      }
      else if e.mr_index == 3
      then record {
        rtmr0 = s.rtmr0;
        rtmr1 = s.rtmr1;
        rtmr2 = lib.sha384 (s.rtmr2 ++ e.sha384_digest);
        rtmr3 = s.rtmr3;
      }
      else if e.mr_index == 4
      then record {
        rtmr0 = s.rtmr0;
        rtmr1 = s.rtmr1;
        rtmr2 = s.rtmr2;
        rtmr3 = lib.sha384 (s.rtmr3 ++ e.sha384_digest);
      }
      else s

  unfoldable pub replay_from : List CcelEvent → Rtmrs → Rtmrs
  unfolding replay_event
  replay_from [] s = s
  replay_from (e ∷ es) s = replay_from es (replay_event e s)

  -- ReplayRTMRs
  unfoldable pub replay_rtmrs : List CcelEvent → Rtmrs
  unfolding replay_from
  replay_rtmrs es =
      replay_from es
        (record { rtmr0 = zero_rtmr; rtmr1 = zero_rtmr; rtmr2 = zero_rtmr; rtmr3 = zero_rtmr })

  check_width : ℕ → Bytes → Result CcelError (Unit {0})
  check_width i r = refuse_if (not (length r == 48)) (wrong_rtmr_width i (length r))

  check_rtmr : ℕ → Bytes → Bytes → Result CcelError (Unit {0})
  check_rtmr i replayed want =
      refuse_if (not (bytes_eq replayed want)) (rtmr_mismatch i replayed want)

  -- VerifyCCELAgainstRTMRs
  unfoldable pub verify_ccel_against_rtmrs : Bytes → Rtmrs → Result CcelError Bool
  unfolding parse_ccel replay_rtmrs check_width check_rtmr
  verify_ccel_against_rtmrs d quote = do
    check_width 0 quote.rtmr0
    check_width 1 quote.rtmr1
    check_width 2 quote.rtmr2
    check_width 3 quote.rtmr3
    events ← parse_ccel d
    let replayed = replay_rtmrs events
    check_rtmr 0 replayed.rtmr0 quote.rtmr0
    check_rtmr 1 replayed.rtmr1 quote.rtmr1
    check_rtmr 2 replayed.rtmr2 quote.rtmr2
    ok (bytes_eq replayed.rtmr3 quote.rtmr3)
