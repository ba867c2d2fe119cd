-- ===== src/Launchmeasure/Snp/Covered.antt =====
-- The launch digest covers the kernel hashes.
use attestation_go.Base.{
  ℕ, suc, ◌+◌, ◌≤◌, ◌≡◌, ◌≢◌, ◌⊎◌, inl, inr, refl, sym, ap, subst, ◌∙◌, Option, none, some, List,
  [], ◌∷◌, ◌++◌, map, Bytes, length, halves, Result, ok,
}
use attestation_go.Launchmeasure.Hashes.{KernelHashes, hash_table_padded, page_size, page}
use attestation_go.Launchmeasure.Hashes.Layout.{IsSized}
use attestation_go.Launchmeasure.Hashes.Apart.{page-inj}
use attestation_go.Launchmeasure.Snp.{
  SnpError, SectionKind, snp_sec_mem, snp_secrets, cpuid, svsm_caa, snp_kernel_hashes, other_kind,
  Section, Firmware, Gctx, Loader, Config, open_firmware, hash_table_offset, launch_digest,
}
use attestation_go.Launchmeasure.Snp.Measured.{
  Update, normal_pages, vmsa_page, run, IsUpdateOf, IsHashesPage, Populates, HasHashesSection,
  launch_digest_sound,
}

some_value : {x y : ℕ} → ◌≡◌ {A = Result SnpError ℕ} (ok x) (ok y) → x ≡ y
some_value h = cc h

same_image : {a b : ℕ} {x y : Bytes} → normal_pages a x ≡ normal_pages b y → x ≡ y
same_image h = cc h

same_firmware : {x y : Firmware} → ◌≡◌ {A = Result SnpError Firmware} (ok x) (ok y) → x ≡ y
same_firmware h = cc h

same_kind : {x y : SectionKind} → ◌≡◌ {A = Result Bytes SectionKind} (ok x) (ok y) → x ≡ y
same_kind h = cc h

tails : {u v : Update} {us vs : List Update} → u ∷ us ≡ v ∷ vs → us ≡ vs
tails h = cc h

module _ {Ctx : Type 0} (gctx : Gctx Ctx) (little_endian_bytes : Bytes → Bytes) where
  at_hashes :
      (fw : Firmware) (k : KernelHashes) (kind : SectionKind) (s : Section) (u : Update)
      → kind ≡ snp_kernel_hashes
      → IsUpdateOf gctx little_endian_bytes fw (some k) kind s u
      → IsHashesPage gctx little_endian_bytes fw k s u
  at_hashes fw k snp_kernel_hashes s u e h = h
  at_hashes fw k snp_sec_mem s u e h = cc e
  at_hashes fw k snp_secrets s u e h = cc e
  at_hashes fw k cpuid s u e h = cc e
  at_hashes fw k svsm_caa s u e h = cc e
  at_hashes fw k (other_kind n) s u e h = cc e

  length-Populates :
      (fw : Firmware) (kh : Option KernelHashes) (ss : List Section) (us : List Update)
      → Populates gctx little_endian_bytes fw kh ss us
      → length us ≡ length ss
  length-Populates fw kh [] [] h = refl
  length-Populates fw kh [] (u ∷ us) h = absurd h
  length-Populates fw kh (s ∷ ss) [] h = absurd h
  length-Populates fw kh (s ∷ ss) (u ∷ us) h = ap suc (length-Populates fw kh ss us h.1)

  module _ (fw : Firmware) (offset : ℕ) (k k' : KernelHashes)
      (there : hash_table_offset fw ≡ ok offset) (fits : offset + hash_table_padded ≤ page_size)
      (sized : IsSized little_endian_bytes k) (sized' : IsSized little_endian_bytes k') where
    same_page :
        (s : Section) (u : Update)
        → IsHashesPage gctx little_endian_bytes fw k s u
        → IsHashesPage gctx little_endian_bytes fw k' s u
        → k ≡ k'
    same_page s u h h' =
        let at : h.0 ≡ offset = some_value (sym h.2 ∙ there) in
        let at' : h'.0 ≡ offset = some_value (sym h'.2 ∙ there) in
        let pages : page little_endian_bytes k h.0 ≡ page little_endian_bytes k' h'.0 =
          same_image (sym h.8 ∙ h'.8) in
        page-inj little_endian_bytes k k' offset sized sized' fits
          (ap (page little_endian_bytes k) (sym at) ∙ pages ∙ ap (page little_endian_bytes k') at')

    Populates-inj :
        (ss : List Section) (us : List Update)
        → Populates gctx little_endian_bytes fw (some k) ss us
        → Populates gctx little_endian_bytes fw (some k') ss us
        → HasHashesSection gctx little_endian_bytes ss
        → k ≡ k'
    Populates-inj [] us h h' has = absurd has
    Populates-inj (s ∷ ss) [] h h' has = absurd h
    Populates-inj (s ∷ ss) (u ∷ us) h h' (inr later) = Populates-inj ss us h.1 h'.1 later
    Populates-inj (s ∷ ss) (u ∷ us) h h' (inl e) =
        let (kind, named, update) = h.0 in
        let (kind', named', update') = h'.0 in
        same_page s u (at_hashes fw k kind s u (same_kind (sym named ∙ e)) update)
          (at_hashes fw k' kind' s u (same_kind (sym named' ∙ e)) update')

  -- Two different sequences of updates after which the context gives one digest.
  abbrev pub Collides : Bytes → Type 0
  Collides digest =
      (us : List Update) × (vs : List Update) × (final : Ctx) × (other : Ctx) × (us ≢ vs)
      × (run gctx little_endian_bytes us gctx.fresh ≡ ok final)
      × (run gctx little_endian_bytes vs gctx.fresh ≡ ok other)
      × (gctx.launch_digest_of final ≡ digest)
      × (gctx.launch_digest_of other ≡ digest)

  requested_section :
      (k : KernelHashes) (ss : List Section)
      → (◌≡◌ {A = Option KernelHashes} (some k) none) ⊎ HasHashesSection gctx little_endian_bytes ss
      → HasHashesSection gctx little_endian_bytes ss
  requested_section k ss (inl e) = cc e
  requested_section k ss (inr has) = has

  -- Two launches that differ in their kernel hashes alone and have one digest are a collision of the
  -- measuring context, where the GUIDs and the hashes have their widths and the table of hashes ends
  -- within its page: the digest covers the kernel, the initrd and the command line each.
  pub launch_digest_covers :
      (loader : Loader) (cfg : Config) (fw : Firmware) (offset : ℕ) (k k' : KernelHashes)
      {digest : Bytes}
      → open_firmware loader cfg.firmware_path ≡ ok fw
      → hash_table_offset fw ≡ ok offset
      → offset + hash_table_padded ≤ page_size
      → IsSized little_endian_bytes k
      → IsSized little_endian_bytes k'
      → k ≢ k'
      → launch_digest gctx little_endian_bytes loader (record cfg { kernel_hashes = some k })
        ≡ ok digest
      → launch_digest gctx little_endian_bytes loader (record cfg { kernel_hashes = some k' })
        ≡ ok digest
      → Collides digest
  launch_digest_covers loader cfg fw offset k k' {digest} opened there fits sized sized' differ h
        h' =
      let first =
        launch_digest_sound gctx little_endian_bytes loader (record cfg { kernel_hashes = some k })
          h in
      let second =
        launch_digest_sound gctx little_endian_bytes loader (record cfg { kernel_hashes = some k' })
          h' in
      let (fw1, us, _, pages, final, opened1, populates, has, _, _, ran, gives, _, _) = first in
      let (fw2, vs, _, pages', other, opened2, populates', _, _, _, ran', gives', _, _) = second in
      let is_fw : fw1 ≡ fw = same_firmware (sym opened1 ∙ opened) in
      let is_fw' : fw2 ≡ fw = same_firmware (sym opened2 ∙ opened) in
      let p : Populates gctx little_endian_bytes fw (some k) fw.metadata_items us =
        subst (λ f. Populates gctx little_endian_bytes f (some k) f.metadata_items us) is_fw
          populates in
      let q : Populates gctx little_endian_bytes fw (some k') fw.metadata_items vs =
        subst (λ f. Populates gctx little_endian_bytes f (some k') f.metadata_items vs) is_fw'
          populates' in
      let s : HasHashesSection gctx little_endian_bytes fw.metadata_items =
        subst (λ f. HasHashesSection gctx little_endian_bytes f.metadata_items) is_fw
          (requested_section k fw1.metadata_items has) in
      let width : length (normal_pages fw1.gpa fw1.image ∷ us)
          ≡ length (normal_pages fw2.gpa fw2.image ∷ vs) =
        ap suc (
          length-Populates fw (some k) fw.metadata_items us p
          ∙ sym (length-Populates fw (some k') fw.metadata_items vs q)) in
      (
        (normal_pages fw1.gpa fw1.image ∷ us) ++ map vmsa_page pages,
        (normal_pages fw2.gpa fw2.image ∷ vs) ++ map vmsa_page pages',
        final,
        other,
        λ e.
            let (heads, _) =
              halves (normal_pages fw1.gpa fw1.image ∷ us) (normal_pages fw2.gpa fw2.image ∷ vs)
                (map vmsa_page pages) (map vmsa_page pages') width e in
            let same : us ≡ vs = tails heads in
            differ (
              Populates-inj fw offset k k' there fits sized sized' fw.metadata_items vs
                (subst (Populates gctx little_endian_bytes fw (some k) fw.metadata_items) same p) q
                s),
        ran,
        ran',
        gives,
        gives',
      )
