-- ===== src/Runtimemeasure/Manifest/Loaded.antt =====
-- What a manifest that loads has pinned.
use attestation_go.Base.{
  ℕ, ◌+◌, ◌<◌, ◌≡◌, inl, inr, refl, sym, arith, ℤ, pos, int_eq, int_le, false, not, Option, none,
  some, List, [], ◌∷◌, Bytes, IsBytes, codes, bytes_eq, bytes_eq_iff, length, All, ◌==◌, Result, ok,
  map_err, bind-eq-ok, map_err-eq-ok, refuse_if-eq-ok, Bool-cases,
}
use attestation_go.Teetypes.Platform.{Family, family_unknown, family_snp, family_tdx}
use attestation_go.Teetypes.Digest.{parse_digest, hex_encode}
use attestation_go.Teetypes.Digest.RoundTrip.{hex_encode-parse_digest}
use attestation_go.Teetypes.Claims.{Pins, pin_at}
use attestation_go.Teetypes.Claims.Registers.{IsMap}
use attestation_go.Strictjson.{reject_duplicate_keys}
use attestation_go.Runtimemeasure.Identity.{
  SnpImagePins, ImageIdentity, tdx_image, snp_image, family_of,
}
use attestation_go.Runtimemeasure.Manifest.{
  SnpVariant, ManifestJson, unreadable, not_json, bad_keys, bad_smp, no_variants, bad_algorithm,
  no_digest, bad_digest, refuse_seen, load_variants, load_tdx_image_manifest,
  load_snp_image_manifest, load_image_manifest_for,
}

-- A pin for each variant, in order: with a positive count, under the SHA-384 algorithm, and the 48 bytes
-- whose lowercase hex the variant gives.
abbrev pub PinsEach : List SnpVariant → Pins → Type 0
PinsEach [] [] = Unit {0}
PinsEach (v ∷ vs) ((smp, d) ∷ pins) =
    ((smp ≡ v.smp)
      × (int_le smp (pos 0) ≡ false)
      × (v.algorithm ≡ codes "sha384")
      × (v.snp_launch_digest ≡ hex_encode d)
      × IsBytes d
      × (length d ≡ 48))
    × PinsEach vs pins
PinsEach _ _ = ⊥

refuse_seen-eq-ok : (smp : ℤ) (o : Option Bytes) → refuse_seen smp o ≡ ok tt → o ≡ none
refuse_seen-eq-ok smp none h = refl
refuse_seen-eq-ok smp (some d) h = cc

split_seen :
    (smp : ℤ) (d : Bytes) (seen pins : Pins)
    → All (λ e. pin_at e.0 ((smp, d) ∷ seen) ≡ none) pins
    → All (λ e. int_eq e.0 smp ≡ false) pins × All (λ e. pin_at e.0 seen ≡ none) pins
unfolding pin_at
split_seen smp d seen [] h = (tt, tt)
split_seen smp d seen (e ∷ pins) h =
    let (a, b) = split_seen smp d seen pins h.1 in
    elim (Bool-cases (int_eq e.0 smp)) [
      | inl same ↦ cc (rw same at h.0)
      | inr other ↦ ((other, a), (rw other at h.0, b))
    ]

load_variants_sound :
    (i : ℕ) (seen : Pins) (vs : List SnpVariant) {pins : Pins}
    → load_variants i seen vs ≡ ok pins
    → PinsEach vs pins × IsMap pins × All (λ e. pin_at e.0 seen ≡ none) pins
unfolding load_variants
load_variants_sound i seen [] {pins} h = let e : [] ≡ pins = cc in rw (← e) (tt, tt, tt)
load_variants_sound i seen (v ∷ vs) {pins} h =
    let (positive, h1) = refuse_if-eq-ok (int_le v.smp (pos 0)) (bad_smp i v.smp) h in
    let (_, unseen, h2) = bind-eq-ok (refuse_seen v.smp (pin_at v.smp seen)) _ h1 in
    let (sha384, h3) =
      refuse_if-eq-ok (not (bytes_eq v.algorithm (codes "sha384")))
        (bad_algorithm v.smp v.algorithm) h2 in
    let (_, h4) = refuse_if-eq-ok (length v.snp_launch_digest == 0) (no_digest v.smp) h3 in
    let (d, parsed, h5) =
      bind-eq-ok (map_err (bad_digest v.smp) (parse_digest v.snp_launch_digest 48)) _ h4 in
    let (rest, later, h6) = bind-eq-ok (load_variants (i + 1) ((v.smp, d) ∷ seen) vs) _ h5 in
    let (x, y, z) =
      hex_encode-parse_digest v.snp_launch_digest 48 (map_err-eq-ok (bad_digest v.smp) _ parsed) in
    let (a, m, f) = load_variants_sound (i + 1) ((v.smp, d) ∷ seen) vs later in
    let (apart, fresh) = split_seen v.smp d seen rest f in
    let e : (v.smp, d) ∷ rest ≡ pins = cc in
    rw (← e) (
      (
        (refl, positive, (bytes_eq_iff v.algorithm (codes "sha384")).0 (ground arith), sym x, y, z),
        a,
      ),
      (apart, m),
      (refuse_seen-eq-ok v.smp (pin_at v.smp seen) unseen, fresh),
    )

-- An identity with a launch digest.
abbrev pub Nonempty : ImageIdentity → Type 0
Nonempty (tdx_image p) = Unit {0}
Nonempty (snp_image p) = 0 < length p.by_smp

module _ (json : ManifestJson) where
  -- An SNP manifest that loads pins each of its variants, of which there is one at least, with a positive
  -- vCPU count that no other variant has and the digest that the variant writes in lowercase hex.
  pub load_snp_image_manifest_sound :
      (file : Result Bytes Bytes) {p : SnpImagePins}
      → load_snp_image_manifest json file ≡ ok p
      → (content : Bytes) × (vs : List SnpVariant) × (file ≡ ok content)
        × (json.read_variants content ≡ ok vs)
        × (0 < length vs)
        × PinsEach vs p.by_smp
        × IsMap p.by_smp
        × (p.observed ≡ false)
  unfolding load_snp_image_manifest
  load_snp_image_manifest_sound file {p} h =
      let (content, opened, h1) = bind-eq-ok (map_err unreadable file) _ h in
      let (vs, read, h2) = bind-eq-ok (map_err not_json (json.read_variants content)) _ h1 in
      let (_, _, h3) =
        bind-eq-ok (map_err bad_keys (reject_duplicate_keys json.equal_fold (json.tokens content)))
          _ h2 in
      let (some_variant, h4) = refuse_if-eq-ok (length vs == 0) no_variants h3 in
      let (pins, loaded, h5) = bind-eq-ok (load_variants 0 [] vs) _ h4 in
      let (a, m, _) = load_variants_sound 0 [] vs loaded in
      let e : record { by_smp = pins; observed = false } ≡ p = cc in
      (
        content,
        vs,
        map_err-eq-ok unreadable file opened,
        map_err-eq-ok not_json _ read,
        ground arith,
        rw (← e) a,
        rw (← e) m,
        rw (← e) refl,
      )

  PinsEach-nonempty :
      (vs : List SnpVariant) (pins : Pins) → PinsEach vs pins → length vs ≡ length pins
  PinsEach-nonempty [] [] h = refl
  PinsEach-nonempty [] (e ∷ pins) h = absurd h
  PinsEach-nonempty (v ∷ vs) [] h = absurd h
  PinsEach-nonempty (v ∷ vs) ((smp, d) ∷ pins) h = omega (arith, PinsEach-nonempty vs pins h.1)

  -- An identity that loads is of the family that was asked for, and has a launch digest.
  pub load_image_manifest_for_lem :
      (file : Result Bytes Bytes) (fam : Family) {id : ImageIdentity}
      → load_image_manifest_for json file fam ≡ ok id
      → (family_of id ≡ fam) × Nonempty id
  unfolding load_image_manifest_for family_of
  load_image_manifest_for_lem file family_snp {id} h =
      let (p, loaded, h1) = bind-eq-ok (load_snp_image_manifest json file) _ h in
      let (_, vs, _, _, filled, each, _, _) = load_snp_image_manifest_sound file loaded in
      let e : snp_image p ≡ id = cc in
      rw (← e) (refl, omega (arith, filled, PinsEach-nonempty vs p.by_smp each))
  load_image_manifest_for_lem file family_tdx {id} h =
      let (p, loaded, h1) = bind-eq-ok (load_tdx_image_manifest json file) _ h in
      let e : tdx_image p ≡ id = cc in rw (← e) (refl, tt)
  load_image_manifest_for_lem file family_unknown h = cc
