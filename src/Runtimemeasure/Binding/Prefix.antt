-- ===== src/Runtimemeasure/Binding/Prefix.antt =====
-- MatchBindingPrefix against VerifyBinding: the prefix that it returns is bound, and a bound prefix is
-- found.
use attestation_go.Base.{
  ℕ, zero, suc, ◌≤◌, ◌≡◌, ◌⊎◌, inl, inr, refl, sym, ap, ◌∙◌, true, not, some, List, [], ◌∷◌, arith,
  Bytes, bytes_eq, bytes_eq_iff, bytes_eq_refl, length, take, All, ◌==◌, ok, map_err, Stdlib,
  bind-eq-ok, refuse_if-eq-ok, Bool-cases,
}
use attestation_go.Teetypes.Platform.{
  PlatformType, Family, family_unknown, family_snp, family_tdx, family, has_registers,
}
use attestation_go.Teetypes.Verdict.{VerificationResult}
use attestation_go.Runtimemeasure.Canonical.Shape.{IsCanonical}
use attestation_go.Runtimemeasure.Fold.{zero_register, extend, from_digests_seeded}
use attestation_go.Runtimemeasure.LaunchFile.{check_launch_file_digest, launch_file_digest}
use attestation_go.Runtimemeasure.Binding.{
  launch_file, wrong_digest_width, empty_anchor, binding, check_binding_platform,
  binding_from_digest, expected_binding, verify_binding, on_family, match_binding_prefix,
  match_launch_file_digest_prefix,
}
use attestation_go.Runtimemeasure.Binding.Search.{match_prefix_sound, match_prefix_complete}

module _ ⦃lib : Stdlib⦄ where
  -- A value of the digest on a platform with registers is extended by the workloads.
  binding_from_digest-extends :
      (p : PlatformType) (digest : Bytes) (ws : List Bytes) {w0 : Bytes}
      → family p ≡ family_tdx
      → binding_from_digest p digest [] ≡ ok w0
      → binding_from_digest p digest ws ≡ ok (from_digests_seeded w0 ws)
  unfolding binding_from_digest from_digests_seeded
  binding_from_digest-extends p digest ws {w0} tdx h =
      let (_, a, h1) = bind-eq-ok (check_binding_platform p) _ h in
      let (_, b, h2) =
        bind-eq-ok (map_err launch_file (check_launch_file_digest (family p) digest)) _ h1 in
      let (wide, same) =
        refuse_if-eq-ok (not (length digest == 48)) (wrong_digest_width (length digest))
          (rw tdx at h2) in
      let same' : extend zero_register digest ≡ w0 = cc same in rw (a, b, tdx, wide, same')

  expected_binding-extends :
      (p : PlatformType) (anchor : Bytes) (ws : List Bytes) {w0 : Bytes}
      → family p ≡ family_tdx
      → expected_binding p anchor [] ≡ ok w0
      → expected_binding p anchor ws ≡ ok (from_digests_seeded w0 ws)
  unfolding expected_binding
  expected_binding-extends p anchor ws {w0} tdx h =
      let (some_anchor, h1) = refuse_if-eq-ok (length anchor == 0) empty_anchor h in
      let (digest, a, h2) =
        bind-eq-ok (map_err launch_file (launch_file_digest (family p) anchor)) _ h1 in
      rw (some_anchor, a) (binding_from_digest-extends p digest ws tdx h2)

  has_registers-family : (p : PlatformType) → has_registers p ≡ true → family p ≡ family_tdx
  unfolding has_registers
  has_registers-family p h = ground arith

  -- The prefix of the claimed list that MatchBindingPrefix returns is no longer than the list, the list
  -- is canonical throughout, and VerifyBinding accepts the result for the anchor with that prefix.
  pub match_binding_prefix_sound :
      (r : VerificationResult) (anchor : Bytes) (claimed : List Bytes) (k : ℕ)
      → match_binding_prefix (some r) anchor claimed ≡ ok k
      → (k ≤ length claimed)
        × All IsCanonical claimed
        × (verify_binding (some r) anchor (take k claimed) ≡ ok tt)
  unfolding match_binding_prefix verify_binding
  match_binding_prefix_sound r anchor claimed k h =
      let (le, canonical, (w, wanted, carried)) =
        match_prefix_sound r claimed (λ p ws. expected_binding p anchor ws)
          (λ ws w0 registers e.
            expected_binding-extends r.platform anchor ws
              (has_registers-family r.platform registers) e)
          k h in
      (le, canonical, rw (carried, wanted, bytes_eq_refl w))

  -- The prefix that MatchLaunchFileDigestPrefix returns has a value over the digest, and the binding of
  -- the result carries that value; the claimed list is canonical throughout.
  pub match_launch_file_digest_prefix_sound :
      (r : VerificationResult) (digest : Bytes) (claimed : List Bytes) (k : ℕ)
      → match_launch_file_digest_prefix (some r) digest claimed ≡ ok k
      → (k ≤ length claimed)
        × All IsCanonical claimed
        × (v : Bytes) × (binding (some r) ≡ ok v)
        × (binding_from_digest r.platform digest (take k claimed) ≡ ok v)
  unfolding match_launch_file_digest_prefix
  match_launch_file_digest_prefix_sound r digest claimed k h =
      let (le, canonical, (w, wanted, carried)) =
        match_prefix_sound r claimed (λ p ws. binding_from_digest p digest ws)
          (λ ws w0 registers e.
            binding_from_digest-extends r.platform digest ws
              (has_registers-family r.platform registers) e)
          k h in
      (le, canonical, w, carried, wanted)

  on_family-base :
      (p : PlatformType) (f : Family) (digest : Bytes) (ws : List Bytes) {w : Bytes}
      → on_family p f digest ws ≡ ok w
      → (w0 : Bytes) × (on_family p f digest [] ≡ ok w0)
        × (w ≡ from_digests_seeded w0 ws)
        × ((ws ≡ []) ⊎ (f ≡ family_tdx))
  unfolding on_family from_digests_seeded
  on_family-base p family_tdx digest ws {w} h =
      let (wide, same) =
        refuse_if-eq-ok (not (length digest == 48)) (wrong_digest_width (length digest)) h in
      let same' : from_digests_seeded (extend zero_register digest) ws ≡ w = cc same in
      (extend zero_register digest, rw wide, sym same', inr refl)
  on_family-base p family_snp digest [] {w} h =
      let same : digest ≡ w = cc h in (digest, refl, sym same, inl refl)
  on_family-base p family_snp digest (v ∷ ws) h = cc h
  on_family-base p family_unknown digest ws h = cc h

  -- A value with workloads is the value without them, extended by the workloads.
  expected_binding-base :
      (p : PlatformType) (anchor : Bytes) (ws : List Bytes) {w : Bytes}
      → expected_binding p anchor ws ≡ ok w
      → (w0 : Bytes) × (expected_binding p anchor [] ≡ ok w0)
        × (w ≡ from_digests_seeded w0 ws)
        × ((ws ≡ []) ⊎ (family p ≡ family_tdx))
  unfolding expected_binding binding_from_digest
  expected_binding-base p anchor ws h =
      let (some_anchor, h1) = refuse_if-eq-ok (length anchor == 0) empty_anchor h in
      let (digest, a, h2) =
        bind-eq-ok (map_err launch_file (launch_file_digest (family p) anchor)) _ h1 in
      let (_, b, h3) = bind-eq-ok (check_binding_platform p) _ h2 in
      let (_, c, h4) =
        bind-eq-ok (map_err launch_file (check_launch_file_digest (family p) digest)) _ h3 in
      let (w0, e, fold, where_found) = on_family-base p (family p) digest ws h4 in
      (w0, rw (some_anchor, a, b, c) e, fold, where_found)

  pub verify_binding-eq-ok :
      (r : VerificationResult) (anchor : Bytes) (ws : List Bytes)
      → verify_binding (some r) anchor ws ≡ ok tt
      → (w : Bytes) × (expected_binding r.platform anchor ws ≡ ok w) × (binding (some r) ≡ ok w)
  unfolding verify_binding
  verify_binding-eq-ok r anchor ws h =
      let (got, a, h1) = bind-eq-ok (binding (some r)) _ h in
      let (want, b, h2) = bind-eq-ok (expected_binding r.platform anchor ws) _ h1 in
      elim (Bool-cases (bytes_eq got want)) [
        | inl same ↦ (want, b, a ∙ ap ok ((bytes_eq_iff got want).0 same))
        | inr differs ↦ cc (rw differs at h2)
      ]

  family-has_registers : (p : PlatformType) → family p ≡ family_tdx → has_registers p ≡ true
  unfolding has_registers
  family-has_registers p h = rw h

  take-eq-[] : (k : ℕ) (claimed : List Bytes) → k ≤ length claimed → take k claimed ≡ [] → k ≡ 0
  take-eq-[] zero claimed le h = refl
  take-eq-[] (suc k) [] le h = absurd (omega arith)
  take-eq-[] (suc k) (d ∷ ds) le h = cc h

  -- When VerifyBinding accepts a result for the anchor with the first `k` entries of a canonical list,
  -- MatchBindingPrefix on that list succeeds with a prefix of at most `k` entries.
  pub match_binding_prefix_complete :
      (r : VerificationResult) (anchor : Bytes) (claimed : List Bytes) (k : ℕ)
      → All IsCanonical claimed
      → k ≤ length claimed
      → verify_binding (some r) anchor (take k claimed) ≡ ok tt
      → (j : ℕ) × (match_binding_prefix (some r) anchor claimed ≡ ok j) × (j ≤ k)
  unfolding match_binding_prefix
  match_binding_prefix_complete r anchor claimed k canonical le h =
      let (w, wanted, carried) = verify_binding-eq-ok r anchor (take k claimed) h in
      let (w0, bare, fold, where_found) =
        expected_binding-base r.platform anchor (take k claimed) wanted in
      match_prefix_complete r claimed (λ p ws. expected_binding p anchor ws)
        (λ ws w1 registers e.
          expected_binding-extends r.platform anchor ws (has_registers-family r.platform registers)
            e)
        k w0 canonical le
        (elim where_found [
          | inl none_taken ↦ inl (take-eq-[] k claimed le none_taken)
          | inr tdx ↦ inr (family-has_registers r.platform tdx)
        ])
        bare (carried ∙ ap ok fold)
