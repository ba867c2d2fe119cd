-- ===== src/Launchmeasure/Vcpu/Fields.antt =====
-- The fields of a signature.
use attestation_go.Base.{
  ℕ, ◌+◌, ◌*◌, ◌/◌, ◌%◌, ◌≤◌, ◌<◌, ◌≡◌, ◌⊎◌, inl, inr, refl, arith, ltb, Bool-cases,
}
use attestation_go.Launchmeasure.Vcpu.{family_low, family_high, vcpu_signature}

low_bound : (f : ℕ) → family_low f < 16
low_bound f = ground arith

high_bound : (f : ℕ) → family_high f < 256
high_bound f = ground arith

family_sum : (f : ℕ) → f ≤ 270 → family_low f + family_high f ≡ f
family_sum f h = ground arith

extended_or_not : (f : ℕ) → (family_low f ≡ 15) ⊎ (family_high f ≡ 0)
extended_or_not f = elim (Bool-cases (ltb 15 f)) [
  | inl above ↦ rw above (inl refl)
  | inr below ↦ rw below (inr refl)
]

-- The fields of a word, each of four bits but the highest.
digits :
    (a b c d e sig : ℕ)
    → b < 16
    → c < 16
    → d < 16
    → e < 16
    → sig ≡ a * 1048576 + b * 65536 + c * 256 + d * 16 + e
    → (sig / 1048576 ≡ a)
      × (sig / 65536 % 16 ≡ b)
      × (sig / 256 % 16 ≡ c)
      × (sig / 16 % 16 ≡ d)
      × (sig % 16 ≡ e)
digits a b c d e sig hb hc hd he h =
    (omega arith, omega arith, omega arith, omega arith, omega arith)

-- For a family up to 270, a model up to 255 and a stepping up to 15, the signature is read as CPUID
-- reports it: the family is the base family in bits 8 to 11 and the extended family from bit 20 on, which
-- is zero unless the base family is 15; the model is the base model in bits 4 to 7 and the extended model
-- in bits 16 to 19 as its high half; the stepping is in bits 0 to 3; and the signature has 28 bits.
pub vcpu_signature_fields :
    (f m s : ℕ)
    → f ≤ 270
    → m < 256
    → s < 16
    → (vcpu_signature f m s / 256 % 16 + vcpu_signature f m s / 1048576 ≡ f)
      × ((vcpu_signature f m s / 256 % 16 ≡ 15) ⊎ (vcpu_signature f m s / 1048576 ≡ 0))
      × (vcpu_signature f m s / 65536 % 16 * 16 + vcpu_signature f m s / 16 % 16 ≡ m)
      × (vcpu_signature f m s % 16 ≡ s)
      × (vcpu_signature f m s < 268435456)
unfolding vcpu_signature
vcpu_signature_fields f m s hf hm hs =
    let (high, up, low, model, stepping) =
      digits (family_high f) (m / 16 % 16) (family_low f) (m % 16) (s % 16) (vcpu_signature f m s)
        (omega arith) (low_bound f) (omega arith) (omega arith) refl in
    (
      omega (arith, high, low, family_sum f hf),
      elim (extended_or_not f) [
        | inl base ↦ inl (omega (arith, low, base))
        | inr none ↦ inr (omega (arith, high, none))
      ],
      omega (arith, up, model, hm),
      omega (arith, stepping, hs),
      omega (arith, high_bound f, low_bound f),
    )
