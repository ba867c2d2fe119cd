-- ===== src/Tests/Launch.antt =====
-- A launch measurement over a context that lists what it is told.
use attestation_go.Base.{
  ℕ, ◌<◌, ◌≡◌, ◌⊎◌, refl, pos, int_le, arith, true, none, some, List, [], ◌∷◌, ◌++◌, map, Bytes,
  codes, length, replicate, little_endian, ok, ◌+◌, ◌*◌, ◌/◌, ◌%◌, ◌≢◌, ap,
}
use attestation_go.Launchmeasure.Hashes.{KernelHashes}
use attestation_go.Launchmeasure.Hashes.Layout.{IsSized}
use attestation_go.Launchmeasure.Snp.Covered.{Collides, launch_digest_covers}
use attestation_go.Launchmeasure.Vcpu.{vcpu_signature}
use attestation_go.Launchmeasure.Vcpu.Fields.{vcpu_signature_fields}
use attestation_go.Launchmeasure.Snp.{
  snp_sec_mem, snp_secrets, snp_kernel_hashes, Section, Firmware, Gctx, Loader, Config, digest_len,
  open_firmware, hash_table_offset, launch_digest,
}
use attestation_go.Launchmeasure.Snp.Measured.{
  Update, normal_pages, vmsa_page, run, Populates, HasHashesSection, launch_digest_sound,
}

abbrev in_order : Bytes → Bytes
in_order guid = guid

abbrev kernels : KernelHashes
kernels = record { kernel = replicate 32 1; initrd = replicate 32 2; cmdline = replicate 32 3 }

sized : IsSized in_order kernels
sized = (refl, ((refl, refl), ((refl, refl), ((refl, refl), tt))))

-- Family 25, model 1 and stepping 1, a Milan.
vcpu_signature_fields_example :
    (vcpu_signature 25 1 1 / 256 % 16 + vcpu_signature 25 1 1 / 1048576 ≡ 25)
    × ((vcpu_signature 25 1 1 / 256 % 16 ≡ 15) ⊎ (vcpu_signature 25 1 1 / 1048576 ≡ 0))
    × (vcpu_signature 25 1 1 / 65536 % 16 * 16 + vcpu_signature 25 1 1 / 16 % 16 ≡ 1)
    × (vcpu_signature 25 1 1 % 16 ≡ 1)
    × (vcpu_signature 25 1 1 < 268435456)
vcpu_signature_fields_example =
    vcpu_signature_fields 25 1 1 (omega arith) (omega arith) (omega arith)

milan : vcpu_signature 25 1 1 ≡ 10489617
unfolding vcpu_signature
milan = refl

-- The signature of EPYC-Turin.
turin : vcpu_signature 26 0 0 ≡ 11538176
unfolding vcpu_signature
turin = refl

abbrev listing : Gctx Bytes
listing = record {
  fresh = [];
  update_normal_pages = λ gpa image ctx. ok (1 ∷ gpa ∷ length image ∷ ctx);
  update_zero_pages = λ gpa n ctx. ok (2 ∷ gpa ∷ n ∷ ctx);
  update_secrets_page = λ gpa ctx. ok (3 ∷ gpa ∷ ctx);
  update_cpuid_page = λ gpa ctx. ok (4 ∷ gpa ∷ ctx);
  update_vmsa_page = λ p ctx. ok (5 ∷ p ++ ctx);
  launch_digest_of = λ ctx. replicate 48 (length ctx);
}

abbrev sections : List Section
sections =
    record { address = 8192; size = 4096; kind = ok snp_sec_mem }
    ∷ record { address = 16384; size = 4096; kind = ok snp_secrets }
    ∷ record { address = 20480; size = 4096; kind = ok snp_kernel_hashes }
    ∷ []

abbrev firmware : Firmware
firmware = record {
  gpa = 65536;
  image = codes "ovmf";
  metadata_items = sections;
  hash_table_rv = ok (0 ∷ 92 ∷ 0 ∷ 0 ∷ []);
  reset_eip = ok 7;
}

abbrev loader : Loader
loader = record {
  stat = λ path. ok 8192;
  parse_firmware = λ path. ok firmware;
  vmsa_pages = λ eip features sig n. ok ((eip ∷ sig ∷ []) ∷ []);
}

abbrev config : Config
config = record {
  firmware_path = codes "OVMF.fd";
  kernel_hashes = some kernels;
  vcpus = pos 1;
  vcpu_sig = 11538176;
  guest_features = 1;
}

abbrev measured_digest : Bytes
measured_digest = replicate 48 14

launched : launch_digest listing in_order loader config ≡ ok measured_digest
unfolding launch_digest int_le hash_table_offset little_endian
launched = refl

launch_digest_sound_example :
    (fw : Firmware) × (us : List Update) × (eip : ℕ) × (pages : List Bytes) × (final : Bytes)
    × (open_firmware loader (codes "OVMF.fd") ≡ ok fw)
    × Populates listing in_order fw (some kernels) fw.metadata_items us
    × ((config.kernel_hashes ≡ none) ⊎ HasHashesSection listing in_order fw.metadata_items)
    × (fw.reset_eip ≡ ok eip)
    × (loader.vmsa_pages eip 1 11538176 (pos 1) ≡ ok pages)
    × (run listing in_order ((normal_pages fw.gpa fw.image ∷ us) ++ map vmsa_page pages) []
        ≡ ok final)
    × (listing.launch_digest_of final ≡ measured_digest)
    × (length measured_digest ≡ digest_len)
    × (int_le (pos 1) (pos 1) ≡ true)
launch_digest_sound_example = launch_digest_sound listing in_order loader config launched

abbrev swapped : KernelHashes
swapped = record { kernel = replicate 32 2; initrd = replicate 32 1; cmdline = replicate 32 3 }

swapped-IsSized : IsSized in_order swapped
swapped-IsSized = (refl, ((refl, refl), ((refl, refl), ((refl, refl), tt))))

opened : open_firmware loader (codes "OVMF.fd") ≡ ok firmware
unfolding open_firmware
opened = refl

placed : hash_table_offset firmware ≡ ok 3072
unfolding hash_table_offset little_endian
placed = refl

first_byte : Bytes → ℕ
first_byte [] = 0
first_byte (b ∷ s) = b

differ : kernels ≢ swapped
unfolding first_byte
differ e =
    let one_two : ◌≡◌ {A = ℕ} 1 2 = ap (λ (k : KernelHashes). first_byte k.kernel) e in
    omega (arith, one_two)

launched_swapped :
    launch_digest listing in_order loader (record config { kernel_hashes = some swapped })
    ≡ ok measured_digest
unfolding launch_digest int_le hash_table_offset little_endian
launched_swapped = refl

launch_digest_covers_example : Collides listing in_order measured_digest
launch_digest_covers_example =
    launch_digest_covers listing in_order loader config firmware 3072 kernels swapped opened placed
      (omega arith) sized swapped-IsSized differ launched launched_swapped
