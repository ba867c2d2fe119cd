-- ===== src/Launchmeasure/Snp.antt =====
-- launchmeasure/snp/snp.go: the launch digest, over the measuring context and the OVMF parser of
-- github.com/virtee/sev-snp-measure-go.
pub mod Measured
pub mod Covered
use attestation_go.Base.{
  ℕ, zero, ◌+◌, ◌%◌, ℤ, pos, int_le, Bool, true, false, not, ◌&&◌, ◌||◌, Option, none, some, List,
  [], ◌∷◌, Bytes, codes, length, take, little_endian, ltb, ◌==◌, Result, ok, err, ◌>>=◌, ◌>>◌,
  refuse_if, map_err,
}
use attestation_go.Launchmeasure.Hashes.{KernelHashes, page_size, page}

pub data SnpError : Type 0 where
  bad_vcpus : ℤ → SnpError
  path_required no_metadata no_hash_table no_hashes_section : SnpError
  bad_firmware : Bytes → SnpError
  bad_size : ℕ → SnpError
  unmeasured : Bytes → SnpError
  hashes_section_size : ℕ → SnpError
  unhandled_section : ℕ → SnpError
  no_reset_block : Bytes → SnpError
  bad_vmsa : Bytes → SnpError
  bad_digest : ℕ → SnpError

-- ovmf.SectionType
pub data SectionKind : Type 0 where
  snp_sec_mem snp_secrets cpuid svsm_caa snp_kernel_hashes : SectionKind
  other_kind : ℕ → SectionKind

pub record Section : Type 0 where
  pub address : ℕ
  pub size : ℕ
  pub kind : Result Bytes SectionKind

-- ovmf.OVMF; `hash_table_rv` is TableItem of SEV_HASH_TABLE_RV_GUID.
pub record Firmware : Type 0 where
  pub gpa : ℕ
  pub image : Bytes
  pub metadata_items : List Section
  pub hash_table_rv : Result Bytes Bytes
  pub reset_eip : Result Bytes ℕ

-- gctx.GCTX, with its state after each update.
pub record Gctx (Ctx : Type 0) : Type 0 where
  pub fresh : Ctx
  pub update_normal_pages : ℕ → Bytes → Ctx → Result Bytes Ctx
  pub update_zero_pages : ℕ → ℕ → Ctx → Result Bytes Ctx
  pub update_secrets_page : ℕ → Ctx → Result Bytes Ctx
  pub update_cpuid_page : ℕ → Ctx → Result Bytes Ctx
  pub update_vmsa_page : Bytes → Ctx → Result Bytes Ctx
  pub launch_digest_of : Ctx → Bytes

-- os.Stat, ovmf.New, whose panic is an error here, and the pages of vmsa.New.
pub record Loader : Type 0 where
  pub stat : Bytes → Result Bytes ℕ
  pub parse_firmware : Bytes → Result Bytes Firmware
  pub vmsa_pages : ℕ → ℕ → ℕ → ℤ → Result Bytes (List Bytes)

pub record Config : Type 0 where
  pub firmware_path : Bytes
  pub kernel_hashes : Option KernelHashes
  pub vcpus : ℤ
  pub vcpu_sig : ℕ
  pub guest_features : ℕ

abbrev pub digest_len : ℕ
digest_len = 48

unfoldable pub open_firmware : Loader → Bytes → Result SnpError Firmware
open_firmware loader path = do
  refuse_if (length path == 0) path_required
  n ← map_err bad_firmware (loader.stat path)
  refuse_if (n == 0 || not (n % page_size == 0)) (bad_size n)
  fw ← map_err bad_firmware (loader.parse_firmware path)
  refuse_if (length fw.metadata_items == 0) no_metadata
  ok fw

abbrev offset_in : ℕ → Result SnpError ℕ
offset_in table_gpa = refuse_if (table_gpa == 0) no_hash_table >> ok (table_gpa % page_size)

abbrev item_offset : Result Bytes Bytes → Result SnpError ℕ
item_offset (err e) = err no_hash_table
item_offset (ok item) =
    refuse_if (ltb (length item) 4) no_hash_table >> offset_in (little_endian (take 4 item))

unfoldable pub hash_table_offset : Firmware → Result SnpError ℕ
hash_table_offset fw = item_offset fw.hash_table_rv

abbrev pub is_kernel_hashes : SectionKind → Bool
is_kernel_hashes snp_kernel_hashes = true
is_kernel_hashes _ = false

abbrev pub requested : Option KernelHashes → Bool
requested (some k) = true
requested none = false

module _ {Ctx : Type 0} (gctx : Gctx Ctx) (little_endian_bytes : Bytes → Bytes) where
  -- The case of SNP_KERNEL_HASHES.
  measure_hashes : Firmware → Option KernelHashes → Section → Ctx → Result SnpError Ctx
  measure_hashes fw none s ctx = map_err unmeasured (gctx.update_zero_pages s.address s.size ctx)
  measure_hashes fw (some k) s ctx = do
    refuse_if (not (s.size == page_size)) (hashes_section_size s.size)
    offset ← hash_table_offset fw
    map_err unmeasured (gctx.update_normal_pages s.address (page little_endian_bytes k offset) ctx)

  -- The switch of measureMetadata.
  measure_section :
      Firmware → Option KernelHashes → SectionKind → Section → Ctx → Result SnpError Ctx
  unfolding measure_hashes
  measure_section fw kh snp_sec_mem s ctx =
      map_err unmeasured (gctx.update_zero_pages s.address s.size ctx)
  measure_section fw kh svsm_caa s ctx =
      map_err unmeasured (gctx.update_zero_pages s.address s.size ctx)
  measure_section fw kh snp_secrets s ctx =
      map_err unmeasured (gctx.update_secrets_page s.address ctx)
  measure_section fw kh cpuid s ctx = map_err unmeasured (gctx.update_cpuid_page s.address ctx)
  measure_section fw kh snp_kernel_hashes s ctx = measure_hashes fw kh s ctx
  measure_section fw kh (other_kind n) s ctx = err (unhandled_section n)

  -- The loop of measureMetadata, with whether it saw a section of kernel hashes.
  measure_sections :
      Firmware → Option KernelHashes → List Section → Bool → Ctx → Result SnpError (Ctx × Bool)
  unfolding measure_section
  measure_sections fw kh [] saw ctx = ok (ctx, saw)
  measure_sections fw kh (s ∷ ss) saw ctx = do
    kind ← map_err unmeasured s.kind
    next ← measure_section fw kh kind s ctx
    measure_sections fw kh ss (saw || is_kernel_hashes kind) next

  unfoldable pub measure_metadata : Firmware → Option KernelHashes → Ctx → Result SnpError Ctx
  unfolding measure_sections
  measure_metadata fw kh ctx = do
    measured ← measure_sections fw kh fw.metadata_items false ctx
    refuse_if (requested kh && not (measured.1)) no_hashes_section
    ok (measured.0)

  update_vmsa_pages : List Bytes → Ctx → Result SnpError Ctx
  update_vmsa_pages [] ctx = ok ctx
  update_vmsa_pages (p ∷ ps) ctx =
      map_err unmeasured (gctx.update_vmsa_page p ctx) >>= λ next. update_vmsa_pages ps next

  -- LaunchDigest
  unfoldable pub launch_digest : Loader → Config → Result SnpError Bytes
  unfolding open_firmware measure_metadata update_vmsa_pages
  launch_digest loader cfg = do
    refuse_if (not (int_le (pos 1) cfg.vcpus)) (bad_vcpus cfg.vcpus)
    fw ← open_firmware loader cfg.firmware_path
    started ← map_err unmeasured (gctx.update_normal_pages fw.gpa fw.image gctx.fresh)
    populated ← measure_metadata fw cfg.kernel_hashes started
    eip ← map_err no_reset_block fw.reset_eip
    pages ← map_err bad_vmsa (loader.vmsa_pages eip cfg.guest_features cfg.vcpu_sig cfg.vcpus)
    final ← update_vmsa_pages pages populated
    refuse_if (not (length (gctx.launch_digest_of final) == digest_len))
        (bad_digest (length (gctx.launch_digest_of final)))
    ok (gctx.launch_digest_of final)
