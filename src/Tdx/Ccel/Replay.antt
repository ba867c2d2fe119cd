-- ===== src/Tdx/Ccel/Replay.antt =====
-- The registers of the replay, and what a log that agrees with the quote establishes.
use attestation_go.Base.{
  ℕ, ◌≡◌, refl, sym, ◌∙◌, arith, Bool, not, List, [], ◌∷◌, ◌++◌, Bytes, bytes_eq, bytes_eq_iff,
  length, ◌==◌, if◌then◌else◌, Result, ok, ◌>>◌, bind-eq-ok, refuse_if-eq-ok, Stdlib,
}
use attestation_go.Tdx.Ccel.{
  CcelError, rtmr_mismatch, wrong_rtmr_width, CcelEvent, parse_ccel, Rtmrs, zero_rtmr, replay_event,
  replay_from, replay_rtmrs, check_width, check_rtmr, verify_ccel_against_rtmrs,
}

-- The digests of the events of one MR index, in order.
unfoldable pub digests_of : ℕ → List CcelEvent → List Bytes
digests_of i [] = []
digests_of i (e ∷ es) =
    let rest = digests_of i es in if e.mr_index == i then e.sha384_digest ∷ rest else rest

module _ ⦃lib : Stdlib⦄ where
  -- A register extended by digests, one after another.
  unfoldable pub extended : Bytes → List Bytes → Bytes
  extended r [] = r
  extended r (d ∷ ds) = extended (lib.sha384 (r ++ d)) ds

  extended_cons :
      (r d : Bytes) (ds : List Bytes) → extended r (d ∷ ds) ≡ extended (lib.sha384 (r ++ d)) ds
  unfolding extended
  extended_cons r d ds = refl

  -- One event extends the register of its index and leaves the others.
  step0 :
      (e : CcelEvent) (es : List CcelEvent) (s : Rtmrs)
      → extended (replay_event e s).rtmr0 (digests_of 1 es)
        ≡ extended s.rtmr0 (digests_of 1 (e ∷ es))
  unfolding replay_event digests_of
  step0 e es s = ground (arith, extended_cons s.rtmr0 e.sha384_digest (digests_of 1 es))

  step1 :
      (e : CcelEvent) (es : List CcelEvent) (s : Rtmrs)
      → extended (replay_event e s).rtmr1 (digests_of 2 es)
        ≡ extended s.rtmr1 (digests_of 2 (e ∷ es))
  unfolding replay_event digests_of
  step1 e es s = ground (arith, extended_cons s.rtmr1 e.sha384_digest (digests_of 2 es))

  step2 :
      (e : CcelEvent) (es : List CcelEvent) (s : Rtmrs)
      → extended (replay_event e s).rtmr2 (digests_of 3 es)
        ≡ extended s.rtmr2 (digests_of 3 (e ∷ es))
  unfolding replay_event digests_of
  step2 e es s = ground (arith, extended_cons s.rtmr2 e.sha384_digest (digests_of 3 es))

  step3 :
      (e : CcelEvent) (es : List CcelEvent) (s : Rtmrs)
      → extended (replay_event e s).rtmr3 (digests_of 4 es)
        ≡ extended s.rtmr3 (digests_of 4 (e ∷ es))
  unfolding replay_event digests_of
  step3 e es s = ground (arith, extended_cons s.rtmr3 e.sha384_digest (digests_of 4 es))

  -- The registers that the digests of each index extend a state to.
  abbrev Chains : List CcelEvent → Rtmrs → Rtmrs → Type 0
  Chains es s t =
      (t.rtmr0 ≡ extended s.rtmr0 (digests_of 1 es))
      × (t.rtmr1 ≡ extended s.rtmr1 (digests_of 2 es))
      × (t.rtmr2 ≡ extended s.rtmr2 (digests_of 3 es))
      × (t.rtmr3 ≡ extended s.rtmr3 (digests_of 4 es))

  Chains-empty : (s : Rtmrs) → Chains [] s s
  unfolding extended digests_of
  Chains-empty s = (refl, refl, refl, refl)

  replay_from-Chains : (es : List CcelEvent) (s : Rtmrs) → Chains es s (replay_from es s)
  unfolding replay_from
  replay_from-Chains [] s = Chains-empty s
  replay_from-Chains (e ∷ es) s =
      let (a, b, c, d) = replay_from-Chains es (replay_event e s) in
      (a ∙ step0 e es s, b ∙ step1 e es s, c ∙ step2 e es s, d ∙ step3 e es s)

  -- What it is for a quote's registers to agree with a log of events, the fourth as the verdict says.
  abbrev pub Agrees : List CcelEvent → Rtmrs → Bool → Type 0
  Agrees es q b =
      (q.rtmr0 ≡ extended zero_rtmr (digests_of 1 es))
      × (q.rtmr1 ≡ extended zero_rtmr (digests_of 2 es))
      × (q.rtmr2 ≡ extended zero_rtmr (digests_of 3 es))
      × (b ≡ bytes_eq (extended zero_rtmr (digests_of 4 es)) q.rtmr3)

  width_ok :
      (i : ℕ) (r : Bytes) {k : Result CcelError Bool} {b : Bool}
      → (check_width i r >> k) ≡ ok b
      → (length r ≡ 48) × (k ≡ ok b)
  unfolding check_width
  width_ok i r h =
      let (wide, rest) = refuse_if-eq-ok (not (length r == 48)) (wrong_rtmr_width i (length r)) h in
      (ground arith, rest)

  rtmr_ok :
      (i : ℕ) (got want : Bytes) {k : Result CcelError Bool} {b : Bool}
      → (check_rtmr i got want >> k) ≡ ok b
      → (want ≡ got) × (k ≡ ok b)
  unfolding check_rtmr
  rtmr_ok i got want h =
      let (same, rest) = refuse_if-eq-ok (not (bytes_eq got want)) (rtmr_mismatch i got want) h in
      (sym ((bytes_eq_iff got want).0 (ground arith)), rest)

  -- When the event log is accepted against the quote's registers, each of these has 48 bytes, the log
  -- parses, and registers 0 to 2 of the quote are zero extended by the SHA-384 digests of the events of MR
  -- index 1 to 3, in the order of the log; the verdict says whether register 3 is that of MR index 4.
  pub verify_ccel_against_rtmrs_sound :
      (d : Bytes) (q : Rtmrs) {b : Bool}
      → verify_ccel_against_rtmrs d q ≡ ok b
      → (length q.rtmr0 ≡ 48)
        × (length q.rtmr1 ≡ 48)
        × (length q.rtmr2 ≡ 48)
        × (length q.rtmr3 ≡ 48)
        × (es : List CcelEvent) × (parse_ccel d ≡ ok es)
        × Agrees es q b
  unfolding verify_ccel_against_rtmrs replay_rtmrs
  verify_ccel_against_rtmrs_sound d q h =
      let (w0, h1) = width_ok 0 q.rtmr0 h in
      let (w1, h2) = width_ok 1 q.rtmr1 h1 in
      let (w2, h3) = width_ok 2 q.rtmr2 h2 in
      let (w3, h4) = width_ok 3 q.rtmr3 h3 in
      let (es, e, h5) = bind-eq-ok (parse_ccel d) _ h4 in
      let (c0, c1, c2, c3) =
        replay_from-Chains es
          (record { rtmr0 = zero_rtmr; rtmr1 = zero_rtmr; rtmr2 = zero_rtmr; rtmr3 = zero_rtmr }) in
      let (m0, h6) = rtmr_ok 0 _ q.rtmr0 h5 in
      let (m1, h7) = rtmr_ok 1 _ q.rtmr1 h6 in
      let (m2, h8) = rtmr_ok 2 _ q.rtmr2 h7 in
      (w0, w1, w2, w3, es, e, (m0 ∙ c0, m1 ∙ c1, m2 ∙ c2, rw (← c3) (cc h8)))
