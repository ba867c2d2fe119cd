-- ===== src/Armtls/Extension/RoundTrip.antt =====
-- An attestation that is put into an extension is read back.
use attestation_go.Base.{
  ℕ, ◌≡◌, inl, inr, refl, arith, ℤ, pos, int_eq, true, false, ◌&&◌, none, List, [], ◌∷◌, Bytes,
  length, ltb, ◌==◌, ok, map_err, bind-eq-ok, map_err-eq-ok, refuse_if-eq-ok, Bool-cases, Stdlib,
}
use attestation_go.Teetypes.Platform.{Family, family_unknown, family_snp, family_tdx, is_family}
use attestation_go.Runtimemeasure.Binding.{first_uncanonical}
use attestation_go.Armtls.Extension.Parsed.{new_attestation_sound}
use attestation_go.Armtls.Extension.{
  no_oid, bad_asn1, Attestation, AttestationAsn1, Extension, ExtensionCodec, wire_tee_type,
  family_from_wire, check_runtime_extensions, new_attestation, listed, marshal_extension,
  unmarshal_extension,
}

family_from_wire-wire_tee_type :
    (fam : Family) {v : ℤ} → wire_tee_type fam ≡ ok v → family_from_wire v ≡ ok fam
unfolding wire_tee_type family_from_wire int_eq
family_from_wire-wire_tee_type family_snp {v} h = let e : pos 1 ≡ v = cc in rw (← e) refl
family_from_wire-wire_tee_type family_tdx {v} h = let e : pos 2 ≡ v = cc in rw (← e) refl
family_from_wire-wire_tee_type family_unknown h = cc

no_extensions : (fam : Family) → check_runtime_extensions fam [] ≡ ok tt
unfolding check_runtime_extensions first_uncanonical
no_extensions fam = refl

listed_checks :
    (fam : Family) (list : List Bytes) {out : List Bytes}
    → listed fam list ≡ ok out
    → check_runtime_extensions fam out ≡ ok tt
unfolding listed
listed_checks fam list {out} h =
    elim (Bool-cases (ltb 0 (length list) && is_family fam family_tdx)) [
      | inl measured ↦
          let (_, checked, h1) =
            bind-eq-ok (check_runtime_extensions fam list) _ (rw measured at h) in
          let e : list ≡ out = cc in rw e at checked
      | inr unmeasured ↦
          let e : ok [] ≡ ok out = rw unmeasured at h in
          let same : [] ≡ out = cc (e) in rw (← same) (no_extensions fam)
    ]

listed_tdx : (list : List Bytes) {out : List Bytes} → listed family_tdx list ≡ ok out → out ≡ list
unfolding listed is_family
listed_tdx [] h = cc
listed_tdx (d ∷ list) {out} h =
    let some_entry : ltb 0 (length (d ∷ list)) ≡ true = ground arith in
    let (_, _, h1) =
      bind-eq-ok (check_runtime_extensions family_tdx (d ∷ list)) _ (rw some_entry at h) in
    cc

listed_snp : (list : List Bytes) {out : List Bytes} → listed family_snp list ≡ ok out → out ≡ []
unfolding listed is_family
listed_snp list {out} h = elim (Bool-cases (ltb 0 (length list))) [
  | inl entries ↦ let e : ok [] ≡ ok out = rw entries at h in cc (e)
  | inr nothing ↦ let e : ok [] ≡ ok out = rw nothing at h in cc (e)
]

-- What reads back of a list of runtime extensions: all of it on TDX, nothing on SEV-SNP.
abbrev pub ReadBack : Family → List Bytes → List Bytes → Type 0
ReadBack family_tdx list out = out ≡ list
ReadBack family_snp list out = out ≡ []
ReadBack family_unknown list out = ⊥

listed_reads_back :
    (fam : Family) (list : List Bytes) {v : ℤ} {out : List Bytes}
    → wire_tee_type fam ≡ ok v
    → listed fam list ≡ ok out
    → ReadBack fam list out
unfolding wire_tee_type
listed_reads_back family_tdx list w h = listed_tdx list h
listed_reads_back family_snp list w h = listed_snp list h
listed_reads_back family_unknown list w h = cc w

module _ ⦃lib : Stdlib⦄ (codec : ExtensionCodec) where
  -- What asn1.Marshal writes, asn1.Unmarshal reads as the same value, with nothing left.
  abbrev pub ReadsOwn : Type 0
  ReadsOwn =
      (raw : AttestationAsn1) (der : Bytes)
      → codec.asn1_marshal raw ≡ ok der
      → codec.asn1_unmarshal der ≡ ok (raw, [])

  rebuilt :
      (fam : Family) (report chain : Bytes) (a : Attestation) (f : Family) (r c : Bytes)
      → f ≡ fam
      → r ≡ report
      → c ≡ chain
      → new_attestation codec fam report chain none ≡ ok a
      → new_attestation codec f r c none ≡ ok a
  rebuilt fam report chain a f r c p q s h = rw (p, q, s) h

  -- Where encoding/asn1 reads what it writes: an attestation that was built from a payload, and keeps that
  -- payload as its report, is read back from the extension that it is put into, with its list of runtime
  -- extensions on TDX and without one on SEV-SNP.
  pub unmarshal-marshal_extension :
      (fam : Family) (report chain : Bytes) (list : List Bytes) (oid : List ℕ) (a : Attestation)
      {ext : Extension}
      → ReadsOwn
      → new_attestation codec fam report chain none ≡ ok a
      → a.report ≡ report
      → marshal_extension codec (record a { runtime_extensions = list }) oid ≡ ok ext
      → (ext.id ≡ oid)
        × (ext.critical ≡ false)
        × (out : List Bytes) × ReadBack a.of_family list out
        × (unmarshal_extension codec ext.value ≡ ok (record a { runtime_extensions = out }))
  unfolding marshal_extension unmarshal_extension
  unmarshal-marshal_extension fam report chain list oid a {ext} own built payload h =
      let (same, kept, _, _) = new_attestation_sound codec fam report chain none built in
      let (_, h1) = refuse_if-eq-ok (length oid == 0) no_oid h in
      let (v, wired, h2) = bind-eq-ok (wire_tee_type a.of_family) _ h1 in
      let (out, encoded, h3) = bind-eq-ok (listed a.of_family list) _ h2 in
      let raw : AttestationAsn1 = record {
        tee_type = v;
        raw_report = a.report;
        raw_chain = a.cert_chain;
        raw_extensions = out;
      } in
      let (value, written, h4) = bind-eq-ok (map_err bad_asn1 (codec.asn1_marshal raw)) _ h3 in
      let read = own raw value (map_err-eq-ok bad_asn1 _ written) in
      let again : new_attestation codec a.of_family a.report a.cert_chain none ≡ ok a =
        rebuilt fam report chain a a.of_family a.report a.cert_chain same payload kept built in
      let e : record { id = oid; critical = false; value = value } ≡ ext = cc in
      rw (← e) (
        refl,
        refl,
        out,
        listed_reads_back a.of_family list wired encoded,
        rw (
          read,
          family_from_wire-wire_tee_type a.of_family wired,
          listed_checks a.of_family list encoded,
          again,
        ),
      )
