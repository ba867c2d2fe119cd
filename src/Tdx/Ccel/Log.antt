-- ===== src/Tdx/Ccel/Log.antt =====
-- The events that ParseCCEL reads, described without fuel.
use attestation_go.Base.{
  ℕ, zero, suc, ◌+◌, ◌≤◌, ◌<◌, ◌≡◌, ◌↔◌, inl, inr, refl, arith, true, false, ◌&&◌, ◌||◌, Option,
  none, some, List, [], Bytes, length, slice, little_endian, ltb, leb, ◌==◌, Result, ok, bind-eq-ok,
  refuse_if-eq-ok, Bool-cases,
}
use attestation_go.Tdx.Ccel.{
  CcelError, data_too_short, spec_id_too_long, CcelEvent, Round, ended, parsed, Digests, truncated,
  digests, digest_size, exceeds, one_digest, read_digests, finish_event, read_event,
  max_digest_algorithms, keep, continue, read_events, parse_ccel,
}

-- The records of the data from an offset on: none past the end or where a record ends the log, else one
-- record and those after it.
pub data Log (d : Bytes) : ℕ → List CcelEvent → Type 0 where
  past_end : {off : ℕ} → length d ≤ off → Log d off []
  last_record : {off : ℕ} → off < length d → read_event d off ≡ ok ended → Log d off []
  record_then :
      {off next : ℕ} {e : Option CcelEvent} {es : List CcelEvent}
      → off < length d
      → read_event d off ≡ ok (parsed e next)
      → Log d next es
      → Log d off (keep e es)

one_digest-grows :
    (size : Option ℕ) (d : Bytes) (pos algo : ℕ) (found : Bytes)
    (next : ℕ → Bytes → Result CcelError Digests) {after : ℕ} {x : Bytes}
    → ((p : ℕ) (f : Bytes) → next p f ≡ ok (digests after x) → p ≤ after)
    → one_digest size d pos algo found next ≡ ok (digests after x)
    → pos ≤ after
one_digest-grows none d pos algo found next grows h = cc h
one_digest-grows (some size) d pos algo found next grows h =
    elim (Bool-cases (exceeds d (pos + 2) size)) [
      | inl over ↦ cc (rw over at h)
      | inr within ↦ omega (arith, grows (pos + 2 + size) _ (rw within at h))
    ]

read_digests-grows :
    (d : Bytes) (n pos : ℕ) (found : Bytes) {after : ℕ} {x : Bytes}
    → read_digests d n pos found ≡ ok (digests after x)
    → pos ≤ after
unfolding read_digests
read_digests-grows d zero pos found {after} h = let same : pos ≡ after = cc h in omega arith
read_digests-grows d (suc n) pos found h = elim (Bool-cases (exceeds d pos 2)) [
  | inl over ↦ cc (rw over at h)
  | inr within ↦
      one_digest-grows (digest_size (little_endian (slice d pos 2))) d pos
        (little_endian (slice d pos 2)) found (read_digests d n)
        (λ p f e. read_digests-grows d n p f e) (rw within at h)
]

finish_event-grows :
    (d : Bytes) (mr kind : ℕ) (ds : Digests) {e : Option CcelEvent} {next : ℕ}
    → finish_event d mr kind ds ≡ parsed e next
    → (pos : ℕ) × (x : Bytes) × (ds ≡ digests pos x) × (pos < next)
unfolding finish_event
finish_event-grows d mr kind truncated h = cc h
finish_event-grows d mr kind (digests pos found) {e} {next} h =
    let size = little_endian (slice d pos 4) in
    elim (Bool-cases
      (exceeds d pos 4 || exceeds d (pos + 4) size || (kind == 0 && mr == 0 && size == 0))) [
        | inl over ↦ cc (rw over at h)
        | inr within ↦
            let there = rw within at h in
            let same : pos + 4 + size ≡ next = cc there in (pos, found, refl, omega arith)
      ]

-- A record that another may follow is longer than nothing.
read_event-grows :
    (d : Bytes) (off : ℕ) {e : Option CcelEvent} {next : ℕ}
    → read_event d off ≡ ok (parsed e next)
    → off < next
unfolding read_event
read_event-grows d off {e} {next} h =
    elim (Bool-cases
      (exceeds d off 12 || ltb max_digest_algorithms (little_endian (slice d (off + 8) 4)))) [
        | inl over ↦ cc (rw over at h)
        | inr within ↦
            let (ds, read, h1) =
              bind-eq-ok (read_digests d (little_endian (slice d (off + 8) 4)) (off + 12) []) _
                (rw within at h) in
            let finished : finish_event d (little_endian (slice d off 4))
                  (little_endian (slice d (off + 4) 4)) ds
                ≡ parsed e next =
              cc h1 in
            let (pos, x, same, more) =
              finish_event-grows d (little_endian (slice d off 4))
                (little_endian (slice d (off + 4) 4)) ds finished in
            let start =
              read_digests-grows d (little_endian (slice d (off + 8) 4)) (off + 12) []
                (rw same at read) in
            omega arith
      ]

Log-step :
    (d : Bytes) (off : ℕ) (r : Round) (next_from : ℕ → Result CcelError (List CcelEvent))
    {es : List CcelEvent}
    → off < length d
    → read_event d off ≡ ok r
    → ((next : ℕ) (rest : List CcelEvent) → off < next → next_from next ≡ ok rest → Log d next rest)
    → continue next_from r ≡ ok es
    → Log d off es
Log-step d off ended next_from {es} within read ih h =
    let none_left : [] ≡ es = cc h in rw (← none_left) (last_record within read)
Log-step d off (parsed e next) next_from {es} within read ih h =
    let (rest, later, h1) = bind-eq-ok (next_from next) _ h in
    let all : keep e rest ≡ es = cc h1 in
    rw (← all) (record_then within read (ih next rest (read_event-grows d off read) later))

read_events-Log :
    (fuel : ℕ) (d : Bytes) (off : ℕ) {es : List CcelEvent}
    → length d ≤ off + fuel
    → read_events fuel d off ≡ ok es
    → Log d off es
unfolding read_events
read_events-Log zero d off {es} enough h =
    let none_left : [] ≡ es = cc h in rw (← none_left) (past_end (omega arith))
read_events-Log (suc fuel) d off {es} enough h = elim (Bool-cases (leb (length d) off)) [
  | inl past ↦
      let there = rw past at h in
      let none_left : [] ≡ es = cc there in rw (← none_left) (past_end (ground arith))
  | inr before ↦
      let within : off < length d = ground arith in
      let (r, read, h1) = bind-eq-ok (read_event d off) _ (rw before at h) in
      Log-step d off r (read_events fuel d) within read
        (λ next rest more later. read_events-Log fuel d next (omega arith) later) h1
]

read_events_complete :
    (fuel : ℕ) (d : Bytes) (off : ℕ) {es : List CcelEvent}
    → length d ≤ off + fuel
    → Log d off es
    → read_events fuel d off ≡ ok es
unfolding read_events
read_events_complete zero d off enough (past_end le) = refl
read_events_complete zero d off enough (last_record within read) = absurd (omega arith)
read_events_complete zero d off enough (record_then within read later) = absurd (omega arith)
read_events_complete (suc fuel) d off enough (past_end le) =
    let past : leb (length d) off ≡ true = ground arith in rw past refl
read_events_complete (suc fuel) d off enough (last_record within read) =
    let before : leb (length d) off ≡ false = ground arith in rw (before, read) refl
read_events_complete (suc fuel) d off enough (record_then within read later) =
    let before : leb (length d) off ≡ false = ground arith in
    let more = read_event-grows d off read in
    rw (before, read, read_events_complete fuel d _ (omega arith) later) refl

-- The offset of the first record: after the TCG Spec ID event.
abbrev pub first_record : Bytes → ℕ
first_record d = 32 + little_endian (slice d 28 4)

-- The parser returns a list of events exactly when the data holds a whole Spec ID event and the list is that
-- of the records after it, so that the fuel never cuts a log short.
pub parse_ccel-Log :
    (d : Bytes) (es : List CcelEvent)
    → (parse_ccel d ≡ ok es) ↔ ((first_record d ≤ length d) × Log d (first_record d) es)
unfolding parse_ccel
parse_ccel-Log d es = (
  λ h.
      let (wide, h1) = refuse_if-eq-ok (ltb (length d) 32) (data_too_short (length d)) h in
      let (whole, h2) =
        refuse_if-eq-ok (ltb (length d) (first_record d))
          (spec_id_too_long (little_endian (slice d 28 4))) h1 in
      (ground arith, read_events-Log (length d) d (first_record d) (omega arith) h2),
  λ (whole, log).
      let wide : ltb (length d) 32 ≡ false = ground arith in
      let whole' : ltb (length d) (first_record d) ≡ false = ground arith in
      rw (wide, whole') (read_events_complete (length d) d (first_record d) (omega arith) log),
)
