-- ===== src/Launchmeasure/Vcpu.antt =====
-- launchmeasure/snp/vcpu.go: the signature of a virtual CPU model.
pub mod Fields
use attestation_go.Base.{ℕ, ◌+◌, ◌-◌, ◌*◌, ◌/◌, ◌%◌, ltb, if◌then◌else◌}

abbrev pub family_low : ℕ → ℕ
family_low family = if ltb 15 family then 15 else family

abbrev pub family_high : ℕ → ℕ
family_high family = if ltb 15 family then (family - 15) % 256 else 0

-- VCPUSignature; the fields are disjoint, so the or of them is the sum.
unfoldable pub vcpu_signature : ℕ → ℕ → ℕ → ℕ
vcpu_signature family model stepping =
    family_high family * 1048576
    + (model / 16 % 16) * 65536
    + family_low family * 256
    + (model % 16) * 16
    + stepping % 16
