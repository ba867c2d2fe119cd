-- ===== src/Launchmeasure/Snp/Measured.antt =====
-- Which updates a launch digest is of.
use attestation_go.Base.{
  ℕ, pos, int_le, ◌≡◌, ◌⊎◌, inl, inr, refl, ◌∙◌, sym, ap, arith, Bool, true, false, not, ◌&&◌, ◌||◌,
  Option, none, some, List, [], ◌∷◌, ◌++◌, map, Bytes, length, ◌==◌, Any, Result, ok, ◌>>=◌,
  map_err, bind-eq-ok, map_err-eq-ok, refuse_if-eq-ok, ltb, take, little_endian, ◌%◌, ◌≤◌, ◌<◌, err,
}
use attestation_go.Launchmeasure.Hashes.{KernelHashes, page_size, page}
use attestation_go.Launchmeasure.Snp.{
  SectionKind, snp_sec_mem, snp_secrets, cpuid, svsm_caa, snp_kernel_hashes, other_kind, Section,
  Firmware, Gctx, Loader, Config, digest_len, unmeasured, hashes_section_size, no_hashes_section,
  bad_vcpus, bad_digest, no_reset_block, bad_vmsa, open_firmware, hash_table_offset, measure_hashes,
  measure_section, measure_sections, measure_metadata, update_vmsa_pages, launch_digest, requested,
  is_kernel_hashes, item_offset, no_hash_table,
}

-- What the context is told, one by one.
pub data Update : Type 0 where
  normal_pages : ℕ → Bytes → Update
  zero_pages : ℕ → ℕ → Update
  secrets_page cpuid_page : ℕ → Update
  vmsa_page : Bytes → Update

holds_of_not : (b : Bool) → not b ≡ false → b ≡ true
holds_of_not true h = refl
holds_of_not false h = cc h

is_width : (n : ℕ) → not (n == digest_len) ≡ false → n ≡ digest_len
is_width n h = ground arith

at_least_four : (n : ℕ) → ltb n 4 ≡ false → 4 ≤ n
at_least_four n h = ground arith

not_zero : (n : ℕ) → (n == 0) ≡ false → 0 < n
not_zero n h = ground arith

item_offset_sound :
    (o : Result Bytes Bytes) {offset : ℕ}
    → item_offset o ≡ ok offset
    → (item : Bytes) × (o ≡ ok item)
      × (4 ≤ length item)
      × (0 < little_endian (take 4 item))
      × (offset ≡ little_endian (take 4 item) % page_size)
item_offset_sound (err e) h = cc h
item_offset_sound (ok item) {offset} h =
    let gpa = little_endian (take 4 item) in
    let (long, h1) = refuse_if-eq-ok (ltb (length item) 4) no_hash_table h in
    let (set, h2) = refuse_if-eq-ok (gpa == 0) no_hash_table h1 in
    let same : gpa % page_size ≡ offset = cc (h2) in
    (item, refl, at_least_four (length item) long, not_zero gpa set, sym same)

hash_table_offset_sound :
    (fw : Firmware) {offset : ℕ}
    → hash_table_offset fw ≡ ok offset
    → (item : Bytes) × (fw.hash_table_rv ≡ ok item)
      × (4 ≤ length item)
      × (0 < little_endian (take 4 item))
      × (offset ≡ little_endian (take 4 item) % page_size)
unfolding hash_table_offset
hash_table_offset_sound fw h = item_offset_sound fw.hash_table_rv h

module _ {Ctx : Type 0} (gctx : Gctx Ctx) (little_endian_bytes : Bytes → Bytes) where
  abbrev pub apply : Update → Ctx → Result Bytes Ctx
  apply (normal_pages gpa image) ctx = gctx.update_normal_pages gpa image ctx
  apply (zero_pages gpa n) ctx = gctx.update_zero_pages gpa n ctx
  apply (secrets_page gpa) ctx = gctx.update_secrets_page gpa ctx
  apply (cpuid_page gpa) ctx = gctx.update_cpuid_page gpa ctx
  apply (vmsa_page p) ctx = gctx.update_vmsa_page p ctx

  abbrev pub run : List Update → Ctx → Result Bytes Ctx
  run [] ctx = ok ctx
  run (u ∷ us) ctx = apply u ctx >>= λ next. run us next

  -- The page of the kernel hashes at the firmware's offset, in a section of one page.
  abbrev pub IsHashesPage : Firmware → KernelHashes → Section → Update → Type 0
  IsHashesPage fw k s u =
      (offset : ℕ) × (item : Bytes) × (hash_table_offset fw ≡ ok offset)
      × (fw.hash_table_rv ≡ ok item)
      × (4 ≤ length item)
      × (0 < little_endian (take 4 item))
      × (offset ≡ little_endian (take 4 item) % page_size)
      × (s.size ≡ page_size)
      × (u ≡ normal_pages s.address (page little_endian_bytes k offset))

  -- The update of a section of a kind.
  abbrev pub IsUpdateOf : Firmware → Option KernelHashes → SectionKind → Section → Update → Type 0
  IsUpdateOf fw kh snp_sec_mem s u = u ≡ zero_pages s.address s.size
  IsUpdateOf fw kh svsm_caa s u = u ≡ zero_pages s.address s.size
  IsUpdateOf fw kh snp_secrets s u = u ≡ secrets_page s.address
  IsUpdateOf fw kh cpuid s u = u ≡ cpuid_page s.address
  IsUpdateOf fw none snp_kernel_hashes s u = u ≡ zero_pages s.address s.size
  IsUpdateOf fw (some k) snp_kernel_hashes s u = IsHashesPage fw k s u
  IsUpdateOf fw kh (other_kind n) s u = ⊥

  abbrev pub Populates : Firmware → Option KernelHashes → List Section → List Update → Type 0
  Populates fw kh [] [] = Unit {0}
  Populates fw kh (s ∷ ss) (u ∷ us) =
      ((k : SectionKind) × (s.kind ≡ ok k) × IsUpdateOf fw kh k s u) × Populates fw kh ss us
  Populates fw kh _ _ = ⊥

  -- That one of the sections is for kernel hashes.
  abbrev pub HasHashesSection : List Section → Type 0
  HasHashesSection ss = Any (λ s. s.kind ≡ ok snp_kernel_hashes) ss

  IsStep : Firmware → Option KernelHashes → SectionKind → Section → Ctx → Ctx → Type 0
  IsStep fw kh kind s ctx next = (u : Update) × IsUpdateOf fw kh kind s u × (apply u ctx ≡ ok next)

  measure_section_sound :
      (fw : Firmware) (kh : Option KernelHashes) (kind : SectionKind) (s : Section) (ctx : Ctx)
      {next : Ctx}
      → measure_section gctx little_endian_bytes fw kh kind s ctx ≡ ok next
      → IsStep fw kh kind s ctx next
  unfolding measure_section measure_hashes IsStep
  measure_section_sound fw kh snp_sec_mem s ctx h =
      (zero_pages s.address s.size, refl, map_err-eq-ok unmeasured _ h)
  measure_section_sound fw kh svsm_caa s ctx h =
      (zero_pages s.address s.size, refl, map_err-eq-ok unmeasured _ h)
  measure_section_sound fw kh snp_secrets s ctx h =
      (secrets_page s.address, refl, map_err-eq-ok unmeasured _ h)
  measure_section_sound fw kh cpuid s ctx h =
      (cpuid_page s.address, refl, map_err-eq-ok unmeasured _ h)
  measure_section_sound fw none snp_kernel_hashes s ctx h =
      (zero_pages s.address s.size, refl, map_err-eq-ok unmeasured _ h)
  measure_section_sound fw (some k) snp_kernel_hashes s ctx h =
      let (whole, h1) =
        refuse_if-eq-ok (not (s.size == page_size)) (hashes_section_size s.size) h in
      let (offset, there, h2) = bind-eq-ok (hash_table_offset fw) _ h1 in
      let width : s.size ≡ page_size = ground arith in
      let (item, held, long, set, placed) = hash_table_offset_sound fw there in
      (
        normal_pages s.address (page little_endian_bytes k offset),
        (offset, item, there, held, long, set, placed, width, refl),
        map_err-eq-ok unmeasured _ h2,
      )
  measure_section_sound fw kh (other_kind n) s ctx h = cc

  or_seen :
      (saw : Bool) (k : SectionKind) → ((saw || is_kernel_hashes k) ≡ saw) ⊎ (k ≡ snp_kernel_hashes)
  or_seen saw snp_kernel_hashes = inr refl
  or_seen true _ = inl refl
  or_seen false _ = inl refl

  seen_later :
      (s : Section) (ss : List Section) (k : SectionKind) (saw final : Bool)
      → s.kind ≡ ok k
      → (final ≡ (saw || is_kernel_hashes k)) ⊎ HasHashesSection ss
      → (final ≡ saw) ⊎ HasHashesSection (s ∷ ss)
  seen_later s ss k saw final there (inr later) = inr (inr later)
  seen_later s ss k saw final there (inl same) = elim (or_seen saw k) [
    | inl before ↦ inl (same ∙ before)
    | inr now ↦ inr (inl (there ∙ ap ok now))
  ]

  measure_sections_sound :
      (fw : Firmware) (kh : Option KernelHashes) (ss : List Section) (saw : Bool) (ctx : Ctx)
      {out : Ctx × Bool}
      → measure_sections gctx little_endian_bytes fw kh ss saw ctx ≡ ok out
      → (us : List Update) × Populates fw kh ss us
        × (run us ctx ≡ ok (out.0))
        × ((out.1 ≡ saw) ⊎ HasHashesSection ss)
  unfolding measure_sections IsStep
  measure_sections_sound fw kh [] saw ctx {out} h =
      let e : (ctx, saw) ≡ out = cc in
      ([], tt, ap ok (ap (λ p. p.0) e), inl (sym (ap (λ p. p.1) e)))
  measure_sections_sound fw kh (s ∷ ss) saw ctx {out} h =
      let (k, named, h1) = bind-eq-ok (map_err unmeasured s.kind) _ h in
      let (next, measured, h2) =
        bind-eq-ok (measure_section gctx little_endian_bytes fw kh k s ctx) _ h1 in
      let there : s.kind ≡ ok k = map_err-eq-ok unmeasured s.kind named in
      let (u, is_update, applied) = measure_section_sound fw kh k s ctx measured in
      let (us, rest, ran, seen) =
        measure_sections_sound fw kh ss (saw || is_kernel_hashes k) next h2 in
      let first : run (u ∷ us) ctx ≡ run us next = rw applied refl in
      (u ∷ us, ((k, there, is_update), rest), first ∙ ran, seen_later s ss k saw out.1 there seen)

  covered :
      (kh : Option KernelHashes) (ss : List Section) (seen : Bool)
      → (requested kh && not seen) ≡ false
      → (seen ≡ false) ⊎ HasHashesSection ss
      → (kh ≡ none) ⊎ HasHashesSection ss
  covered none ss seen h c = inl refl
  covered (some k) ss seen h (inr has) = inr has
  covered (some k) ss true h (inl e) = cc e
  covered (some k) ss false h (inl e) = cc h

  update_vmsa_pages_sound :
      (ps : List Bytes) (ctx : Ctx) {final : Ctx}
      → update_vmsa_pages gctx little_endian_bytes ps ctx ≡ ok final
      → run (map vmsa_page ps) ctx ≡ ok final
  unfolding update_vmsa_pages
  update_vmsa_pages_sound [] ctx h = cc
  update_vmsa_pages_sound (p ∷ ps) ctx h =
      let (next, updated, h1) = bind-eq-ok (map_err unmeasured (gctx.update_vmsa_page p ctx)) _ h in
      rw (map_err-eq-ok unmeasured _ updated) (update_vmsa_pages_sound ps next h1)

  run-cons :
      (u : Update) (us : List Update) (ctx : Ctx) {mid final : Ctx}
      → apply u ctx ≡ ok mid
      → run us mid ≡ ok final
      → run (u ∷ us) ctx ≡ ok final
  run-cons u us ctx h k = rw h k

  run-append :
      (us vs : List Update) (ctx : Ctx) {mid : Ctx}
      → run us ctx ≡ ok mid
      → run (us ++ vs) ctx ≡ run vs mid
  run-append [] vs ctx {mid} h = let e : ctx ≡ mid = cc in rw e refl
  run-append (u ∷ us) vs ctx {mid} h =
      let (next, applied, h1) = bind-eq-ok (apply u ctx) _ h in
      rw applied (run-append us vs next h1)

  -- A launch digest is 48 bytes that the context gives after exactly these updates, in this order: the
  -- image of the firmware at its address; one update for each metadata section, in file order, by its
  -- kind, where the section of requested kernel hashes is the one page of their table at the firmware's
  -- offset, the address in the first four bytes of its SEV_HASH_TABLE_RV entry within a page; and one for
  -- each VMSA page. There is at least one virtual CPU, and requested kernel hashes
  -- have a section.
  pub launch_digest_sound :
      (loader : Loader) (cfg : Config) {digest : Bytes}
      → launch_digest gctx little_endian_bytes loader cfg ≡ ok digest
      → (fw : Firmware) × (us : List Update) × (eip : ℕ) × (pages : List Bytes) × (final : Ctx)
        × (open_firmware loader cfg.firmware_path ≡ ok fw)
        × Populates fw cfg.kernel_hashes fw.metadata_items us
        × ((cfg.kernel_hashes ≡ none) ⊎ HasHashesSection fw.metadata_items)
        × (fw.reset_eip ≡ ok eip)
        × (loader.vmsa_pages eip cfg.guest_features cfg.vcpu_sig cfg.vcpus ≡ ok pages)
        × (run ((normal_pages fw.gpa fw.image ∷ us) ++ map vmsa_page pages) gctx.fresh ≡ ok final)
        × (gctx.launch_digest_of final ≡ digest)
        × (length digest ≡ digest_len)
        × (int_le (pos 1) cfg.vcpus ≡ true)
  unfolding launch_digest measure_metadata
  launch_digest_sound loader cfg {digest} h =
      let kh = cfg.kernel_hashes in
      let (enough, h1) = refuse_if-eq-ok (not (int_le (pos 1) cfg.vcpus)) (bad_vcpus cfg.vcpus) h in
      let (fw, opened, h2) = bind-eq-ok (open_firmware loader cfg.firmware_path) _ h1 in
      let (started, loaded, h3) =
        bind-eq-ok (map_err unmeasured (gctx.update_normal_pages fw.gpa fw.image gctx.fresh)) _
          h2 in
      let (populated, metadata, h4) =
        bind-eq-ok (measure_metadata gctx little_endian_bytes fw kh started) _ h3 in
      let (eip, reset, h5) = bind-eq-ok (map_err no_reset_block fw.reset_eip) _ h4 in
      let (pages, built, h6) =
        bind-eq-ok
          (map_err bad_vmsa (loader.vmsa_pages eip cfg.guest_features cfg.vcpu_sig cfg.vcpus)) _
          h5 in
      let (final, ended, h7) =
        bind-eq-ok (update_vmsa_pages gctx little_endian_bytes pages populated) _ h6 in
      let ld = gctx.launch_digest_of final in
      let (wide, h8) =
        refuse_if-eq-ok (not (length ld == digest_len)) (bad_digest (length ld)) h7 in
      let e : ld ≡ digest = cc (h8) in
      let (out, walked, m1) =
        bind-eq-ok (measure_sections gctx little_endian_bytes fw kh fw.metadata_items false started)
          _ metadata in
      let (saw, m2) = refuse_if-eq-ok (requested kh && not (out.1)) no_hashes_section m1 in
      let (us, populates, ran, seen) =
        measure_sections_sound fw kh fw.metadata_items false started walked in
      let same : out.0 ≡ populated = cc (m2) in
      let ran' : run us started ≡ ok populated = ran ∙ ap ok same in
      let first : run (normal_pages fw.gpa fw.image ∷ us) gctx.fresh ≡ ok populated =
        run-cons (normal_pages fw.gpa fw.image) us gctx.fresh (map_err-eq-ok unmeasured _ loaded)
          ran' in
      (
        fw,
        us,
        eip,
        pages,
        final,
        opened,
        populates,
        covered kh fw.metadata_items (out.1) saw seen,
        map_err-eq-ok no_reset_block _ reset,
        map_err-eq-ok bad_vmsa _ built,
        run-append (normal_pages fw.gpa fw.image ∷ us) (map vmsa_page pages) gctx.fresh first
            ∙ update_vmsa_pages_sound pages populated ended,
        e,
        rw e at (is_width (length ld) wide),
        holds_of_not (int_le (pos 1) cfg.vcpus) enough,
      )
