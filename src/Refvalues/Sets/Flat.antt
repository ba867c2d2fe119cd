-- ===== src/Refvalues/Sets/Flat.antt =====
-- The flat form of a set, and the set that flat pins stand for, accept what they were made from.
use attestation_go.Base.{
  ℕ, ◌+◌, ◌≡◌, ◌↔◌, inl, inr, refl, ◌∙◌, arith, true, false, ◌||◌, Option, none, some, List, [],
  ◌∷◌, Bytes, codes, bytes_eq, bytes_eq_iff, bytes_eq_refl, contains, length, All, Any, map, ◌==◌,
  Result, ok, bind-eq-ok, Bool-cases, Stdlib,
}
use attestation_go.Teetypes.Claims.{Pins, rtmr}
use attestation_go.Teetypes.Verdict.{VerificationResult}
use attestation_go.Tpm.Quote.{RawTpmQuote}
use attestation_go.Remote.Checks.{check_verified_platform}
use attestation_go.Remote.Images.{ImagePin, is_some}
use attestation_go.Remote.Images.Whole.{HoldsRegisters}
use attestation_go.Remote.Images.Unbound.{IsUnbound, enforce_images_unbound}
use attestation_go.Remote.Policies.{
  AttestationEvidence, Policy, enforce_pcrs, enforce_pins_with_runtime_log,
}
use attestation_go.Remote.Policies.Flat.{flat_pins_iff}
use attestation_go.Refvalues.Config.{ReferenceValues, pin_of}
use attestation_go.Base.{IsBytes, length, ◌<◌}
use attestation_go.Teetypes.Text.{trim_space}
use attestation_go.Teetypes.Text.Plain.{trim_space-plain}
use attestation_go.Teetypes.Digest.{hex_encode, parse_digest}
use attestation_go.Teetypes.Digest.RoundTrip.{length-hex_encode, parse_digest-hex_encode}
use attestation_go.Runtimemeasure.Fold.{size}
use attestation_go.Refvalues.Flags.{parse_hex_measurements_list}
use attestation_go.Refvalues.Flags.RoundTrip.{hex_encode-IsPlain}
use attestation_go.Refvalues.Sets.{
  hex_digests, any_binding, has_launch_bindings, policy, same_pins, all_share, common_of,
  common_registers, flatten, images_of, from_flags,
}
use attestation_go.Teetypes.Claims.Registers.{IsMap}
use attestation_go.Refvalues.Sets.Agreement.{same_pins-All}

unset {ℓ} : {A : Type ℓ} (o : Option A) → is_some o ≡ false → o ≡ none
unset none h = refl
unset (some a) h = cc h

any_binding-IsUnbound : (imgs : List ImagePin) → any_binding imgs ≡ false → All IsUnbound imgs
unfolding any_binding
any_binding-IsUnbound [] h = tt
any_binding-IsUnbound (img ∷ imgs) h = (
  (
    unset img.anchor (ground arith),
    unset img.launch_file (ground arith),
    unset img.launch_file_digest (ground arith),
  ),
  any_binding-IsUnbound imgs (ground arith),
)

contains-Any :
    (P : ImagePin → Type 0) (imgs : List ImagePin) (d : Bytes)
    → All P imgs
    → contains (map (λ i. i.digest) imgs) d ≡ true
    → Any (λ i. (i.digest ≡ d) × P i) imgs
unfolding contains
contains-Any P [] d a h = cc h
contains-Any P (img ∷ imgs) d a h = elim (Bool-cases (bytes_eq img.digest d)) [
  | inl same ↦ inl ((bytes_eq_iff img.digest d).0 same, a.0)
  | inr other ↦ inr (contains-Any P imgs d a.1 (rw other at h))
]

Any-contains :
    (P : ImagePin → Type 0) (Q : Type 0) (imgs : List ImagePin) (d : Bytes)
    → All (λ i. P i → Q) imgs
    → Any (λ i. (i.digest ≡ d) × P i) imgs
    → (contains (map (λ i. i.digest) imgs) d ≡ true) × Q
unfolding contains
Any-contains P Q [] d a h = elim h [ ]
Any-contains P Q (img ∷ imgs) d a (inl m) = (rw (m.0, bytes_eq_refl d), a.0 m.1)
Any-contains P Q (img ∷ imgs) d a (inr later) =
    let (x, q) = Any-contains P Q imgs d a.1 later in (ground (arith), q)

forwards :
    (P : ImagePin → Type 0) (Q : Type 0) (imgs : List ImagePin)
    → All (λ i. P i ↔ Q) imgs
    → All (λ i. P i → Q) imgs
forwards P Q [] h = tt
forwards P Q (img ∷ imgs) h = (h.0.0, forwards P Q imgs h.1)

backwards :
    (P : ImagePin → Type 0) (Q : Type 0) (imgs : List ImagePin)
    → All (λ i. P i ↔ Q) imgs
    → Q
    → All P imgs
backwards P Q [] h q = tt
backwards P Q (img ∷ imgs) h q = (h.0.1 q, backwards P Q imgs h.1 q)

-- A policy of images, and one of digests and registers that every image shares.
abbrev pub image_policy : List ImagePin → Pins → Policy
image_policy imgs pcrs = record {
  images = imgs;
  measurements = [];
  policy_registers = [];
  policy_pcrs = pcrs;
}

abbrev pub flat_policy : List Bytes → Pins → Pins → Policy
flat_policy ms regs pcrs = record {
  images = [];
  measurements = ms;
  policy_registers = regs;
  policy_pcrs = pcrs;
}

-- A launch digest of 48 bytes.
abbrev pub IsDigest : Bytes → Type 0
IsDigest d = IsBytes d × (length d ≡ 48)

All-fst :
    (imgs : List ImagePin)
    → All (λ i. IsDigest i.digest × IsMap i.registers) imgs
    → All (λ i. IsDigest i.digest) imgs
All-fst [] h = tt
All-fst (img ∷ imgs) h = (h.0.0, All-fst imgs h.1)

All-snd :
    (imgs : List ImagePin)
    → All (λ i. IsDigest i.digest × IsMap i.registers) imgs
    → All (λ i. IsMap i.registers) imgs
All-snd [] h = tt
All-snd (img ∷ imgs) h = (h.0.1, All-snd imgs h.1)

reads_back : (d : Bytes) → IsDigest d → parse_digest (hex_encode d) size ≡ ok d
reads_back d h =
    let some_bytes : 0 < length d = omega (arith, h.1) in
    let read : parse_digest (hex_encode d) (length d) ≡ ok d =
      parse_digest-hex_encode d h.0 some_bytes in
    rw h.1 at read

read_digests :
    (imgs : List ImagePin)
    → All (λ i. IsDigest i.digest) imgs
    → parse_hex_measurements_list (map (λ i. hex_encode i.digest) imgs)
      ≡ ok (map (λ i. i.digest) imgs)
unfolding parse_hex_measurements_list
read_digests [] h = refl
read_digests (img ∷ imgs) h =
    let trimmed : trim_space (hex_encode img.digest) ≡ hex_encode img.digest =
      trim_space-plain (hex_encode img.digest) (hex_encode-IsPlain img.digest h.0.0) in
    let long : (length (hex_encode img.digest) == 0) ≡ false =
      ground (arith, length-hex_encode img.digest, h.0.1) in
    rw (trimmed, long, reads_back img.digest h.0, read_digests imgs h.1) refl

module _ ⦃lib : Stdlib⦄ (unmarshal : Bytes → Result Bytes (Option RawTpmQuote))
    (r : VerificationResult) (ev : AttestationEvidence) (claimed : List Bytes) where
  abbrev Holding : Pins → Type 0
  Holding = HoldsRegisters r ev.evidence_platform claimed

  -- Evidence that a policy accepts.
  abbrev pub Accepts : Policy → Type 0
  Accepts p = enforce_pins_with_runtime_log unmarshal r p ev claimed ≡ ok tt

  module _ (img : ImagePin) (imgs : List ImagePin) (m : Bytes) (ms : List Bytes) (regs pcrs : Pins)
      (unbound : All IsUnbound (img ∷ imgs))
      (alike : All (λ i. Holding i.registers ↔ Holding regs) (img ∷ imgs))
      (covered : (d : Bytes)
        → contains (map (λ i. i.digest) (img ∷ imgs)) d ≡ contains (m ∷ ms) d) where
    to_flat : Accepts (image_policy (img ∷ imgs) pcrs) → Accepts (flat_policy (m ∷ ms) regs pcrs)
    unfolding enforce_pins_with_runtime_log
    to_flat h =
        let some_images : (length (img ∷ imgs) == 0) ≡ false = ground arith in
        let (_, platformed, h1) = bind-eq-ok (check_verified_platform r ev.evidence_platform) _ h in
        let (_, signed, h2) = bind-eq-ok (enforce_pcrs unmarshal ev r.claims pcrs) _ h1 in
        let (_, d, measured, found) =
          (enforce_images_unbound r ev.evidence_platform claimed img imgs unbound).0
            (rw some_images at h2) in
        let (in_set, holds) =
          Any-contains (λ i. Holding i.registers) (Holding regs) (img ∷ imgs) d
            (forwards (λ i. Holding i.registers) (Holding regs) (img ∷ imgs) alike) found in
        rw (platformed, signed)
          ((flat_pins_iff r unmarshal (flat_policy (m ∷ ms) regs pcrs) ev.evidence_platform claimed
              m ms refl).1
            (d, measured, rw (covered d) at in_set, holds))

    from_flat : Accepts (flat_policy (m ∷ ms) regs pcrs) → Accepts (image_policy (img ∷ imgs) pcrs)
    unfolding enforce_pins_with_runtime_log
    from_flat h =
        let some_images : (length (img ∷ imgs) == 0) ≡ false = ground arith in
        let (_, platformed, h1) = bind-eq-ok (check_verified_platform r ev.evidence_platform) _ h in
        let (_, signed, h2) = bind-eq-ok (enforce_pcrs unmarshal ev r.claims pcrs) _ h1 in
        let (d, measured, in_set, holds) =
          (flat_pins_iff r unmarshal (flat_policy (m ∷ ms) regs pcrs) ev.evidence_platform claimed m
              ms refl).0
            h2 in
        rw (platformed, signed, some_images)
          ((enforce_images_unbound r ev.evidence_platform claimed img imgs unbound).1 (
            platformed,
            d,
            measured,
            contains-Any (λ i. Holding i.registers) (img ∷ imgs) d
                (backwards (λ i. Holding i.registers) (Holding regs) (img ∷ imgs) alike holds)
                (covered d ∙ in_set),
          ))

  Holding-same : (a b : Pins) → IsMap a → same_pins a b ≡ true → Holding b ↔ Holding a
  Holding-same [] [] m h = (λ x. x, λ x. x)
  Holding-same [] (e ∷ b) m h = absurd (unfold same_pins in ground arith)
  Holding-same (e ∷ a) [] m h = absurd (unfold same_pins in ground arith)
  Holding-same (e ∷ a) (f ∷ b) m h =
      let each = same_pins-All (λ e. rtmr r.claims e.0 ≡ ok e.1) (e ∷ a) (f ∷ b) m h in
      (λ x. (x.0, each.1 x.1), λ x. (x.0, each.0 x.1))

  all_share-Holding :
      (first : Pins) (imgs : List ImagePin)
      → IsMap first
      → all_share first imgs ≡ true
      → All (λ i. Holding i.registers ↔ Holding first) imgs
  unfolding all_share
  all_share-Holding first [] m h = tt
  all_share-Holding first (img ∷ imgs) m h = (
    Holding-same first img.registers m (ground arith),
    all_share-Holding first imgs m (ground arith),
  )

  uniform_images :
      (imgs : List ImagePin) (pcrs : Pins)
      → All (λ i. IsMap i.registers) imgs
      → (common_of imgs).1 ≡ true
      → any_binding imgs ≡ false
      → Accepts (image_policy imgs pcrs)
        ↔ Accepts (flat_policy (map (λ i. i.digest) imgs) (common_of imgs).0 pcrs)
  unfolding common_of
  uniform_images [] pcrs maps h u = (λ a. a, λ a. a)
  uniform_images (img ∷ imgs) pcrs maps h u = elim (Bool-cases (all_share img.registers imgs)) [
    | inl shared ↦
        let unbound = any_binding-IsUnbound (img ∷ imgs) u in
        let alike : All (λ i. Holding i.registers ↔ Holding img.registers) (img ∷ imgs) =
          ((λ x. x, λ x. x), all_share-Holding img.registers imgs maps.0 shared) in
        rw shared (
          to_flat img imgs img.digest (map (λ i. i.digest) imgs) img.registers pcrs unbound alike
              (λ d. refl),
          from_flat img imgs img.digest (map (λ i. i.digest) imgs) img.registers pcrs unbound alike
              (λ d. refl),
        )
    | inr differ ↦ cc (rw differ at h)
  ]

  -- The flat form of a reference set that Flatten reports as uniform accepts exactly the evidence that the
  -- images of the set accept, with the same vTPM pins beside them: the digests of the flat form, read as
  -- launch digests from the command line are, and its registers. The digest of each image has 48 bytes,
  -- and its registers are a map: an index stands in one entry.
  pub flatten_refines :
      (rv : ReferenceValues) (pcrs : Pins)
      → All (λ i. IsDigest i.digest × IsMap i.registers) rv.images
      → (flatten rv).uniform ≡ true
      → (ds : List Bytes) × (parse_hex_measurements_list (flatten rv).flat_digests ≡ ok ds)
        × (Accepts (record (policy rv) { policy_pcrs = pcrs })
            ↔ Accepts (flat_policy ds (flatten rv).flat_registers pcrs))
  unfolding flatten policy common_registers has_launch_bindings hex_digests
  flatten_refines rv pcrs each h = (
    map (λ i. i.digest) rv.images,
    read_digests rv.images (All-fst rv.images each),
    uniform_images rv.images pcrs (All-snd rv.images each) (ground arith) (ground arith),
  )

  images_of-IsUnbound :
      (n : ℕ) (seen ds : List Bytes) (regs : Pins) → All IsUnbound (images_of n seen ds regs)
  unfolding images_of
  images_of-IsUnbound n seen [] regs = tt
  images_of-IsUnbound n seen (d ∷ ds) regs = elim (Bool-cases (contains seen d)) [
    | inl old ↦ rw old (images_of-IsUnbound n seen ds regs)
    | inr new ↦ rw new ((refl, refl, refl), images_of-IsUnbound (n + 1) (d ∷ seen) ds regs)
  ]

  images_of-Holding :
      (n : ℕ) (seen ds : List Bytes) (regs : Pins)
      → All (λ i. Holding i.registers ↔ Holding regs) (images_of n seen ds regs)
  unfolding images_of
  images_of-Holding n seen [] regs = tt
  images_of-Holding n seen (d ∷ ds) regs = elim (Bool-cases (contains seen d)) [
    | inl old ↦ rw old (images_of-Holding n seen ds regs)
    | inr new ↦ rw new ((λ x. x, λ x. x), images_of-Holding (n + 1) (d ∷ seen) ds regs)
  ]

  images_of-contains :
      (n : ℕ) (seen ds : List Bytes) (regs : Pins) (x : Bytes)
      → (contains (map (λ i. i.digest) (images_of n seen ds regs)) x || contains seen x)
        ≡ (contains ds x || contains seen x)
  unfolding images_of contains
  images_of-contains n seen [] regs x = refl
  images_of-contains n seen (d ∷ ds) regs x = elim (Bool-cases (contains seen d)) [
    | inl old ↦ rw old (elim (Bool-cases (bytes_eq d x)) [
      | inl same ↦
          let e : contains seen x ≡ true = rw ((bytes_eq_iff d x).0 same) at old in ground (arith)
      | inr other ↦ ground (arith, images_of-contains n seen ds regs x)
    ])
    | inr new ↦ rw new (ground (arith, images_of-contains (n + 1) (d ∷ seen) ds regs x))
  ]

  -- The set that FromFlags makes of a list of digests that is not empty and of registers accepts exactly
  -- the evidence that the flat pins accept, with the same vTPM pins beside them.
  pub from_flags_refines :
      (d : Bytes) (ds : List Bytes) (regs pcrs : Pins)
      → Accepts (image_policy (from_flags (d ∷ ds) regs).images pcrs)
        ↔ Accepts (flat_policy (d ∷ ds) regs pcrs)
  unfolding from_flags images_of contains
  from_flags_refines d ds regs pcrs =
      let first = pin_of (codes "image-1") d regs in
      let rest = images_of 1 (d ∷ []) ds regs in
      let unbound : All IsUnbound (first ∷ rest) =
        ((refl, refl, refl), images_of-IsUnbound 1 (d ∷ []) ds regs) in
      let alike : All (λ i. Holding i.registers ↔ Holding regs) (first ∷ rest) =
        ((λ x. x, λ x. x), images_of-Holding 1 (d ∷ []) ds regs) in
      let covered : (x : Bytes)
          → contains (map (λ i. i.digest) (first ∷ rest)) x ≡ contains (d ∷ ds) x =
        λ x. ground (arith, images_of-contains 1 (d ∷ []) ds regs x) in
      (
        to_flat first rest d ds regs pcrs unbound alike covered,
        from_flat first rest d ds regs pcrs unbound alike covered,
      )
