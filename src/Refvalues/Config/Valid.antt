-- ===== src/Refvalues/Config/Valid.antt =====
-- What a measurements config file that loads has pinned.
use attestation_go.Base.{
  ℕ, ◌+◌, ◌≡◌, ◌≢◌, ◌<◌, ◌⊎◌, inl, inr, refl, arith, true, false, Bool, not, ◌&&◌, ◌||◌, Option,
  none, some, List, [], ◌∷◌, Bytes, IsBytes, codes, bytes_eq, bytes_eq_iff, bytes_eq_refl, contains,
  length, All, Result, ok, map_err, refuse_if, bind-eq-ok, map_err-eq-ok, refuse_if-eq-ok,
  Bool-cases, ◌==◌, Stdlib, ltb,
}
use attestation_go.Teetypes.Text.{trim_space}
use attestation_go.Teetypes.Platform.{Family, family_unknown, family_snp, family_tdx, parse_family}
use attestation_go.Teetypes.Digest.{parse_digest, hex_encode}
use attestation_go.Teetypes.Digest.RoundTrip.{hex_encode-parse_digest}
use attestation_go.Teetypes.Claims.{Pins}
use attestation_go.Runtimemeasure.LaunchFile.{
  LaunchFileError, check_launch_file_digest, launch_file_hash, parse_launch_file_digest,
}
use attestation_go.Runtimemeasure.PublicKey.{KeyCodec, parse_public_key_pem}
use attestation_go.Remote.Images.{ImagePin, is_some, one_if, check_launch_binding_pins}
use attestation_go.Remote.Images.Bindings.{IsBound, check_launch_binding_pins-IsBound}
use attestation_go.Refvalues.Keys.{tuple_key}
use attestation_go.Teetypes.Claims.Registers.{IsMap}
use attestation_go.Refvalues.Config.Pinned.{IsPinnable, decode_rtmrs_bounds}
use attestation_go.Refvalues.Config.{
  ReferenceValues, WireImage, Wire, EntryError, bad_text, empty_text, bad_approver_key,
  bad_launch_digest, bad_register, name_required, tdx_fields, snp_fields, measurement_required,
  mrtd_required, null_binding, several_bindings, of_entry, duplicate_name, bad_tee,
  bad_schema_version, no_measurements, schema_two_required, schema_version_one, schema_version_two,
  required, pin_of, decode_register, decode_rtmrs, is_json_null, seen_at, refuse_seen,
  pins_launch_file, check_launch_file_schema, launch_bytes, pin_field, pin_launch_binding, shape,
  validate_image, validate_from, validate,
}

-- The family's digest field of an entry.
abbrev pub digest_field : Family → WireImage → Option Bytes
digest_field family_snp we = we.measurement
digest_field family_tdx we = we.mrtd
digest_field family_unknown we = none

-- The digest and the registers of an image, as the entry writes them: lowercase hex of 48 bytes, and
-- registers on TDX alone.
abbrev pub Reads : Family → WireImage → ImagePin → Type 0
Reads fam we img =
    (img.name ≡ we.name)
    × (digest_field fam we ≡ some (hex_encode img.digest))
    × IsBytes img.digest
    × (length img.digest ≡ 48)
    × ((fam ≡ family_tdx) ⊎ (img.registers ≡ []))
    × All IsPinnable img.registers
    × IsMap img.registers
    × (img.accept_extension ≡ none)

abbrev pub ReadsEach : Family → List WireImage → List ImagePin → Type 0
ReadsEach fam [] [] = Unit {0}
ReadsEach fam (we ∷ wes) (img ∷ imgs) = Reads fam we img × ReadsEach fam wes imgs
ReadsEach fam _ _ = ⊥

required_sound :
    (o : Option Bytes) (e : EntryError) {d : Bytes}
    → required o e ≡ ok d
    → (o ≡ some (hex_encode d)) × IsBytes d × (length d ≡ 48)
unfolding decode_register
required_sound none e h = cc
required_sound (some s) e h =
    let (x, y, z) = hex_encode-parse_digest s 48 (map_err-eq-ok bad_register _ h) in
    (rw x refl, y, z)

-- Two images that differ in their names and in their tuple keys.
abbrev pub Apart : ImagePin → ImagePin → Type 0
Apart img j = (j.name ≢ img.name) × (tuple_key j ≢ tuple_key img)

abbrev pub AllApart : List ImagePin → Type 0
AllApart [] = Unit {0}
AllApart (img ∷ imgs) = All (Apart img) imgs × AllApart imgs

abbrev Unseen : List Bytes → List (Bytes × ℕ) → ImagePin → Type 0
Unseen names tuples j = (contains names j.name ≡ false) × (seen_at (tuple_key j) tuples ≡ none)

Unseen-Apart :
    (i : ℕ) (img j : ImagePin) (names : List Bytes) (tuples : List (Bytes × ℕ))
    → Unseen (img.name ∷ names) ((tuple_key img, i) ∷ tuples) j
    → Apart img j × Unseen names tuples j
unfolding contains seen_at
Unseen-Apart i img j names tuples h = elim (Bool-cases (bytes_eq (tuple_key img) (tuple_key j))) [
  | inl same ↦ cc (rw same at h.1)
  | inr other ↦ (
    (
      λ e.
          let f : bytes_eq img.name j.name ≡ true = rw e (bytes_eq_refl img.name) in
          cc (rw f at h.0),
      λ e.
          let f : bytes_eq (tuple_key img) (tuple_key j) ≡ true =
            rw e (bytes_eq_refl (tuple_key img)) in
          cc (f, other),
    ),
    (ground (arith, h.0), rw other at h.1),
  )
]

Unseen-split :
    (i : ℕ) (img : ImagePin) (names : List Bytes) (tuples : List (Bytes × ℕ)) (imgs : List ImagePin)
    → All (Unseen (img.name ∷ names) ((tuple_key img, i) ∷ tuples)) imgs
    → All (Apart img) imgs × All (Unseen names tuples) imgs
Unseen-split i img names tuples [] h = (tt, tt)
Unseen-split i img names tuples (j ∷ imgs) h =
    let (a, b) = Unseen-Apart i img j names tuples h.0 in
    let (c, d) = Unseen-split i img names tuples imgs h.1 in ((a, c), (b, d))

refuse_seen-eq-ok : (i : ℕ) (o : Option ℕ) → refuse_seen i o ≡ ok tt → o ≡ none
refuse_seen-eq-ok i none h = refl
refuse_seen-eq-ok i (some prev) h = cc

module _ ⦃lib : Stdlib⦄ (codec : KeyCodec) (unmarshal : Bytes → Result Bytes Bytes) where
  shape_sound :
      (fam : Family) (we : WireImage) {img : ImagePin}
      → shape codec unmarshal fam we ≡ ok img
      → (pin_of img.name img.digest img.registers ≡ img) × Reads fam we img
  unfolding shape
  shape_sound family_snp we {img} h =
      let (_, h1) = refuse_if-eq-ok (is_some we.mrtd || is_some we.wire_rtmr) tdx_fields h in
      let (d, read, h2) = bind-eq-ok (required we.measurement measurement_required) _ h1 in
      let (a, b, c) = required_sound we.measurement measurement_required read in
      let e : pin_of we.name d [] ≡ img = cc in
      rw (← e) (refl, (refl, a, b, c, inr refl, tt, tt, refl))
  shape_sound family_tdx we {img} h =
      let (_, h1) = refuse_if-eq-ok (is_some we.measurement) snp_fields h in
      let (d, read, h2) = bind-eq-ok (required we.mrtd mrtd_required) _ h1 in
      let (pins, registers, h3) = bind-eq-ok (decode_rtmrs we.wire_rtmr) _ h2 in
      let (a, b, c) = required_sound we.mrtd mrtd_required read in
      let (f, g) = decode_rtmrs_bounds we.wire_rtmr registers in
      let e : pin_of we.name d pins ≡ img = cc in
      rw (← e) (refl, (refl, a, b, c, inl refl, f, g, refl))
  shape_sound family_unknown we h = cc

  launch_bytes_sound :
      (raw : Bytes) {s : Bytes} → launch_bytes codec unmarshal raw ≡ ok s → (length s == 0) ≡ false
  unfolding launch_bytes
  launch_bytes_sound raw {s} h =
      let (t, _, h1) = bind-eq-ok (map_err bad_text (unmarshal raw)) _ h in
      let (filled, h2) = refuse_if-eq-ok (length t == 0) empty_text h1 in
      let e : t ≡ s = cc in rw e at filled

  parse_launch_file_digest_checks :
      (fam : Family) (s : Bytes) {d : Bytes}
      → parse_launch_file_digest fam s ≡ ok d
      → check_launch_file_digest fam d ≡ ok tt
  unfolding parse_launch_file_digest
  parse_launch_file_digest_checks fam s {d} h =
      let (hash, _, h1) = bind-eq-ok (launch_file_hash fam) _ h in
      let (digest, _, h2) =
        bind-eq-ok (map_err LaunchFileError.bad_digest (parse_digest s hash.width)) _ h1 in
      let (_, checked, h3) = bind-eq-ok (check_launch_file_digest fam digest) _ h2 in
      let e : digest ≡ d = cc in rw e at checked

  -- Only the launch binding changes, and it is well formed.
  abbrev Bound : Family → ImagePin → ImagePin → Type 0
  Bound fam img img' =
      (img'.name ≡ img.name)
      × (img'.digest ≡ img.digest)
      × (img'.registers ≡ img.registers)
      × (img'.accept_extension ≡ img.accept_extension)
      × IsBound fam img'

  pin_field_sound :
      (fam : Family) (key file digest : Option Bytes) (n d : Bytes) (regs : Pins) {img : ImagePin}
      → pin_field codec unmarshal fam key file digest (pin_of n d regs) ≡ ok img
      → Bound fam (pin_of n d regs) img
  unfolding pin_field
  pin_field_sound fam (some raw) file digest n d regs {img} h =
      let (key, _, h1) = bind-eq-ok (launch_bytes codec unmarshal raw) _ h in
      let (_, _, h2) =
        bind-eq-ok (map_err bad_approver_key (parse_public_key_pem codec key)) _ h1 in
      let e : record (pin_of n d regs) { anchor = some key } ≡ img = cc in
      rw (← e) (refl, refl, refl, refl, inr (inl (key, refl, refl, refl)))
  pin_field_sound fam none (some raw) digest n d regs {img} h =
      let (file, filled, h1) = bind-eq-ok (launch_bytes codec unmarshal raw) _ h in
      let e : record (pin_of n d regs) { launch_file = some file } ≡ img = cc in
      rw (← e) (
        refl,
        refl,
        refl,
        refl,
        inr (inr (inl (file, refl, refl, refl, launch_bytes_sound raw filled))),
      )
  pin_field_sound fam none none (some raw) n d regs {img} h =
      let (s, _, h1) = bind-eq-ok (map_err bad_text (unmarshal raw)) _ h in
      let (x, parsed, h2) =
        bind-eq-ok (map_err bad_launch_digest (parse_launch_file_digest fam s)) _ h1 in
      let e : record (pin_of n d regs) { launch_file_digest = some x } ≡ img = cc in
      rw (← e) (
        refl,
        refl,
        refl,
        refl,
        inr (
            inr (
              inr (
                x,
                refl,
                refl,
                refl,
                parse_launch_file_digest_checks fam s (map_err-eq-ok bad_launch_digest _ parsed),
              ))),
      )
  pin_field_sound fam none none none n d regs {img} h =
      let e : pin_of n d regs ≡ img = cc in
      rw (← e) (refl, refl, refl, refl, inl (refl, refl, refl))

  pin_launch_binding_sound :
      (fam : Family) (we : WireImage) (n d : Bytes) (regs : Pins) {img : ImagePin}
      → pin_launch_binding codec unmarshal fam we (pin_of n d regs) ≡ ok img
      → Bound fam (pin_of n d regs) img
  unfolding pin_launch_binding
  pin_launch_binding_sound fam we n d regs h =
      let (_, _, h1) =
        bind-eq-ok (refuse_if (is_json_null we.approver_key) (null_binding (codes "approver_key")))
          _ h in
      let (_, _, h2) =
        bind-eq-ok (refuse_if (is_json_null we.launch_file) (null_binding (codes "launch_file"))) _
          h1 in
      let (_, _, h3) =
        bind-eq-ok
          (refuse_if (is_json_null we.launch_file_digest)
            (null_binding (codes "launch_file_digest")))
          _ h2 in
      let (_, h4) =
        refuse_if-eq-ok
          (ltb 1 (
            one_if (is_some we.approver_key)
            + one_if (is_some we.launch_file)
            + one_if (is_some we.launch_file_digest)))
          several_bindings h3 in
      pin_field_sound fam we.approver_key we.launch_file we.launch_file_digest n d regs h4

  validate_image_sound :
      (fam : Family) (we : WireImage) {img : ImagePin}
      → validate_image codec unmarshal fam we ≡ ok img
      → Reads fam we img × IsBound fam img
  unfolding validate_image
  validate_image_sound fam we {img} h =
      let (_, h1) = refuse_if-eq-ok (length (trim_space we.name) == 0) name_required h in
      let (base, shaped, h2) = bind-eq-ok (shape codec unmarshal fam we) _ h1 in
      let (plain, reads) = shape_sound fam we shaped in
      let h3 : pin_launch_binding codec unmarshal fam we
            (pin_of base.name base.digest base.registers)
          ≡ ok img =
        rw plain h2 in
      let (a, b, c, d, bound) =
        pin_launch_binding_sound fam we base.name base.digest base.registers h3 in
      (
        (
          rw a reads.0,
          rw b reads.1,
          rw b reads.2,
          rw b reads.3,
          rw c reads.4,
          rw c reads.5,
          rw c reads.6,
          d,
        ),
        bound,
      )

  validate_from_sound :
      (fam : Family) (i : ℕ) (names : List Bytes) (tuples : List (Bytes × ℕ)) (wes : List WireImage)
      {imgs : List ImagePin}
      → validate_from codec unmarshal fam i names tuples wes ≡ ok imgs
      → ReadsEach fam wes imgs
        × All (IsBound fam) imgs
        × AllApart imgs
        × All (Unseen names tuples) imgs
  unfolding validate_from
  validate_from_sound fam i names tuples [] {imgs} h =
      let e : [] ≡ imgs = cc in rw (← e) (tt, tt, tt, tt)
  validate_from_sound fam i names tuples (we ∷ wes) {imgs} h =
      let (img, checked, h1) =
        bind-eq-ok (map_err (of_entry i) (validate_image codec unmarshal fam we)) _ h in
      let (fresh, h2) = refuse_if-eq-ok (contains names img.name) (duplicate_name i img.name) h1 in
      let (_, unseen, h3) = bind-eq-ok (refuse_seen i (seen_at (tuple_key img) tuples)) _ h2 in
      let (rest, later, h4) =
        bind-eq-ok
          (validate_from codec unmarshal fam (i + 1) (img.name ∷ names)
            ((tuple_key img, i) ∷ tuples) wes)
          _ h3 in
      let (reads, bound) = validate_image_sound fam we (map_err-eq-ok (of_entry i) _ checked) in
      let (a, b, c, d) =
        validate_from_sound fam (i + 1) (img.name ∷ names) ((tuple_key img, i) ∷ tuples) wes
          later in
      let (apart, others) = Unseen-split i img names tuples rest d in
      let e : img ∷ rest ≡ imgs = cc in
      rw (← e) (
        (reads, a),
        (bound, b),
        (apart, c),
        ((fresh, refuse_seen-eq-ok i (seen_at (tuple_key img) tuples) unseen), others),
      )

  All-well-IsBound :
      (fam : Family) (wes : List WireImage) (imgs : List ImagePin)
      → ReadsEach fam wes imgs
      → All (IsBound fam) imgs
      → All (λ i. (i.accept_extension ≡ none) × IsBound fam i) imgs
  All-well-IsBound fam [] [] h b = tt
  All-well-IsBound fam [] (img ∷ imgs) h b = absurd h
  All-well-IsBound fam (we ∷ wes) [] h b = absurd h
  All-well-IsBound fam (we ∷ wes) (img ∷ imgs) h b =
      ((h.0.7, b.0), All-well-IsBound fam wes imgs h.1 b.1)

  -- A document that validates names a known family and has an image for each entry, in order: with the
  -- entry's name, the 48 bytes whose lowercase hex is the entry's digest field of that family, and no
  -- registers but 1, 2 and 3 of 48 bytes each, pinned once, and on TDX alone. Names and tuple keys differ
  -- between images, the images have the form that EnforceImages wants of launch bindings, a launch file is
  -- pinned under schema 2 alone, and without leave to be empty there is an entry.
  pub validate_sound :
      (allow_empty : Bool) (f : Wire) {rv : ReferenceValues}
      → validate codec unmarshal allow_empty f ≡ ok rv
      → (parse_family f.tee ≡ ok rv.of_family)
        × ReadsEach rv.of_family f.measurements rv.images
        × AllApart rv.images
        × (check_launch_binding_pins rv.images rv.of_family ≡ ok tt)
        × ((pins_launch_file rv.images ≡ false) ⊎ (f.schema_version ≡ schema_version_two))
        × ((allow_empty ≡ true) ⊎ (0 < length f.measurements))
  unfolding validate check_launch_file_schema
  validate_sound allow_empty f {rv} h =
      let (_, h1) =
        refuse_if-eq-ok
          (not (
            bytes_eq f.schema_version schema_version_one
            || bytes_eq f.schema_version schema_version_two))
          (bad_schema_version f.schema_version) h in
      let (fam, parsed, h2) = bind-eq-ok (map_err bad_tee (parse_family f.tee)) _ h1 in
      let (filled, h3) =
        refuse_if-eq-ok (length f.measurements == 0 && not allow_empty) no_measurements h2 in
      let (imgs, read, h4) =
        bind-eq-ok (validate_from codec unmarshal fam 0 [] [] f.measurements) _ h3 in
      let (schema, h5) =
        refuse_if-eq-ok
          (pins_launch_file imgs && not (bytes_eq f.schema_version schema_version_two))
          (schema_two_required f.schema_version) h4 in
      let (a, b, c, _) = validate_from_sound fam 0 [] [] f.measurements read in
      let e : record { of_family = fam; images = imgs } ≡ rv = cc in
      rw (← e) (
        map_err-eq-ok bad_tee (parse_family f.tee) parsed,
        a,
        c,
        check_launch_binding_pins-IsBound fam imgs (All-well-IsBound fam f.measurements imgs a b),
        elim (Bool-cases (pins_launch_file imgs)) [
          | inl pinned ↦ inr ((bytes_eq_iff f.schema_version schema_version_two).0 (ground arith))
          | inr free ↦ inl free
        ],
        elim (Bool-cases allow_empty) [
          | inl allowed ↦ inl allowed
          | inr strict ↦ inr (ground arith)
        ],
      )
