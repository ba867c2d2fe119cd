-- ===== src/Runtimemeasure/Binding/Search.antt =====
-- The search of matchBindingPrefix, for any value that the prefixes are folded into.
use attestation_go.Base.{
  ℕ, zero, suc, ◌+◌, ◌≤◌, ◌≡◌, ◌⊎◌, inl, inr, refl, sym, ap, ◌∙◌, true, false, not, ◌||◌, Option,
  none, some, List, [], ◌∷◌, arith, Bytes, bytes_eq, bytes_eq_iff, bytes_eq_refl, length, take, All,
  ◌==◌, Result, ok, Stdlib, bind-eq-ok, Bool-cases,
}
use attestation_go.Teetypes.Platform.{PlatformType, has_registers}
use attestation_go.Teetypes.Verdict.{VerificationResult}
use attestation_go.Runtimemeasure.Canonical.{canonical_digest}
use attestation_go.Runtimemeasure.Canonical.Shape.{IsCanonical, canonical_digest_self}
use attestation_go.Runtimemeasure.Fold.{event, extend, from_digests_seeded}
use attestation_go.Runtimemeasure.Journal.Lines.{is_exactly}
use attestation_go.Runtimemeasure.Journal.Lines.RoundTrip.{is_exactly-IsCanonical}
use attestation_go.Runtimemeasure.Binding.{
  BindingError, first_uncanonical, refuse_uncanonical, binding, match_from, found, compare_prefixes,
  match_prefix,
}

module _ ⦃lib : Stdlib⦄ where
  match_from_sound :
      (got : Bytes) (i : ℕ) (reg : Bytes) (ds : List Bytes) {k : ℕ}
      → match_from got i reg ds ≡ some k
      → (j : ℕ) × (k ≡ i + j) × (j ≤ length ds) × (got ≡ from_digests_seeded reg (take j ds))
  unfolding match_from from_digests_seeded
  match_from_sound got i reg [] h = cc
  match_from_sound got i reg (d ∷ ds) {k} h =
      elim (Bool-cases (bytes_eq got (extend reg (event d)))) [
        | inl same ↦
            let e : some (i + 1) ≡ some k = rw same at h in
            let e' : i + 1 ≡ k = cc e in
            (1, omega arith, omega arith, (bytes_eq_iff got (extend reg (event d))).0 same)
        | inr differs ↦
            let (j, e, le, fold) =
              match_from_sound got (i + 1) (extend reg (event d)) ds (rw differs at h) in
            (suc j, omega arith, omega arith, fold)
      ]

  match_from_complete :
      (got : Bytes) (i : ℕ) (reg : Bytes) (ds : List Bytes) (j : ℕ)
      → suc j ≤ length ds
      → got ≡ from_digests_seeded reg (take (suc j) ds)
      → (k : ℕ) × (match_from got i reg ds ≡ some k) × (k ≤ i + suc j)
  unfolding match_from from_digests_seeded
  match_from_complete got i reg [] j le h = absurd (omega arith)
  match_from_complete got i reg (d ∷ ds) zero le h =
      (i + 1, rw ((bytes_eq_iff got (extend reg (event d))).1 h), omega arith)
  match_from_complete got i reg (d ∷ ds) (suc j) le h =
      let (k, e, bound) =
        match_from_complete got (i + 1) (extend reg (event d)) ds j (omega arith) h in
      elim (Bool-cases (bytes_eq got (extend reg (event d)))) [
        | inl same ↦ (i + 1, rw same, omega arith)
        | inr differs ↦ (k, rw differs e, omega arith)
      ]

  -- What a result must carry for its binding to be that of an anchor, or of a launch file digest.
  abbrev pub Binds : VerificationResult → Result BindingError Bytes → Type 0
  Binds r want = (w : Bytes) × (want ≡ ok w) × (binding (some r) ≡ ok w)

  found-eq-ok : (got want : Bytes) (o : Option ℕ) {k : ℕ} → found got want o ≡ ok k → o ≡ some k
  found-eq-ok got want none h = cc
  found-eq-ok got want (some j) h = cc

  compare_prefixes_sound :
      (p : PlatformType) (got want : Bytes) (claimed : List Bytes) {k : ℕ}
      → compare_prefixes p got want claimed ≡ ok k
      → (k ≤ length claimed)
        × (got ≡ from_digests_seeded want (take k claimed))
        × ((k ≡ 0) ⊎ (has_registers p ≡ true))
  unfolding compare_prefixes from_digests_seeded
  compare_prefixes_sound p got want claimed {k} h = elim (Bool-cases (bytes_eq got want)) [
    | inl same ↦
        let e : ◌≡◌ {A = Result BindingError ℕ} (ok 0) (ok k) = rw same at h in
        let e' : 0 ≡ k = cc e in rw (← e') (omega arith, (bytes_eq_iff got want).0 same, inl refl)
    | inr differs ↦ elim (Bool-cases (not (has_registers p) || length claimed == 0)) [
      | inl refused ↦ cc (rw (differs, refused) at h)
      | inr searched ↦
          let (j, e, le, fold) =
            match_from_sound got 0 want claimed (
              found-eq-ok got want (match_from got 0 want claimed) (rw (differs, searched) at h)) in
          let same : k ≡ j = omega arith in rw same (le, fold, inr (ground arith))
    ]
  ]

  searched :
      (p : PlatformType) (got want : Bytes) (claimed : List Bytes) (k j : ℕ)
      → bytes_eq got want ≡ false
      → suc k ≤ length claimed
      → (suc k ≡ 0) ⊎ (has_registers p ≡ true)
      → match_from got 0 want claimed ≡ some j
      → compare_prefixes p got want claimed ≡ ok j
  unfolding compare_prefixes
  searched p got want [] k j differs le where_found e = absurd (omega arith)
  searched p got want (d ∷ ds) k j differs le (inl bad) e = absurd (omega arith)
  searched p got want (d ∷ ds) k j differs le (inr registers) e =
      rw (differs, registers, e) (ground arith)

  compare_prefixes_complete :
      (p : PlatformType) (got want : Bytes) (claimed : List Bytes) (k : ℕ)
      → k ≤ length claimed
      → got ≡ from_digests_seeded want (take k claimed)
      → (k ≡ 0) ⊎ (has_registers p ≡ true)
      → (j : ℕ) × (compare_prefixes p got want claimed ≡ ok j) × (j ≤ k)
  unfolding compare_prefixes from_digests_seeded
  compare_prefixes_complete p got want claimed zero le fold where_found =
      (0, rw ((bytes_eq_iff got want).1 fold), omega arith)
  compare_prefixes_complete p got want claimed (suc k) le fold where_found =
      elim (Bool-cases (bytes_eq got want)) [
        | inl same ↦ (0, rw same, omega arith)
        | inr differs ↦
            let (j, e, bound) = match_from_complete got 0 want claimed k le fold in
            (j, searched p got want claimed k j differs le where_found e, omega arith)
      ]

pub first_uncanonical_sound :
    (i : ℕ) (ds : List Bytes) → first_uncanonical i ds ≡ none → All IsCanonical ds
unfolding first_uncanonical
first_uncanonical_sound i [] h = tt
first_uncanonical_sound i (d ∷ ds) h = elim (Bool-cases (is_exactly (canonical_digest d) d)) [
  | inl e ↦ (
    is_exactly-IsCanonical d (canonical_digest d) refl e,
    first_uncanonical_sound (i + 1) ds (rw e at h),
  )
  | inr e ↦ cc (rw e at h)
]

first_uncanonical_complete :
    (i : ℕ) (ds : List Bytes) → All IsCanonical ds → first_uncanonical i ds ≡ none
unfolding first_uncanonical
first_uncanonical_complete i [] h = refl
first_uncanonical_complete i (d ∷ ds) h =
    rw (canonical_digest_self h.0, bytes_eq_refl d) (first_uncanonical_complete (i + 1) ds h.1)

refuse_uncanonical-eq-ok : (o : Option (ℕ × Bytes)) → refuse_uncanonical o ≡ ok tt → o ≡ none
refuse_uncanonical-eq-ok none h = refl
refuse_uncanonical-eq-ok (some (i, d)) h = cc

module _ ⦃lib : Stdlib⦄ (r : VerificationResult) (claimed : List Bytes)
    (expected : PlatformType → List Bytes → Result BindingError Bytes)
    (extends : (ws : List Bytes) (w0 : Bytes)
      → has_registers r.platform ≡ true
      → expected r.platform [] ≡ ok w0
      → expected r.platform ws ≡ ok (from_digests_seeded w0 ws)) where
  pub match_prefix_sound :
      (k : ℕ)
      → match_prefix (some r) claimed (λ p. expected p []) ≡ ok k
      → (k ≤ length claimed)
        × All IsCanonical claimed
        × Binds r (expected r.platform (take k claimed))
  unfolding match_prefix from_digests_seeded
  match_prefix_sound k h =
      let (_, canonical, h1) = bind-eq-ok (refuse_uncanonical (first_uncanonical 0 claimed)) _ h in
      let (got, carried, h2) = bind-eq-ok (binding (some r)) _ h1 in
      let (want, wanted, h3) = bind-eq-ok (expected r.platform []) _ h2 in
      let (le, fold, where_found) = compare_prefixes_sound r.platform got want claimed h3 in
      (
        le,
        first_uncanonical_sound 0 claimed
            (refuse_uncanonical-eq-ok (first_uncanonical 0 claimed) canonical),
        elim where_found [
          | inl none_proven ↦
              let bare : got ≡ want = rw none_proven at fold in
              (got, rw none_proven (wanted ∙ ap ok (sym bare)), carried)
          | inr registers ↦
              (got, extends (take k claimed) want registers wanted ∙ ap ok (sym fold), carried)
        ],
      )

  pub match_prefix_complete :
      (k : ℕ) (want : Bytes)
      → All IsCanonical claimed
      → k ≤ length claimed
      → (k ≡ 0) ⊎ (has_registers r.platform ≡ true)
      → expected r.platform [] ≡ ok want
      → binding (some r) ≡ ok (from_digests_seeded want (take k claimed))
      → (j : ℕ) × (match_prefix (some r) claimed (λ p. expected p []) ≡ ok j) × (j ≤ k)
  unfolding match_prefix
  match_prefix_complete k want canonical le where_found wanted carried =
      rw (first_uncanonical_complete 0 claimed canonical, carried, wanted)
        (compare_prefixes_complete r.platform _ want claimed k le refl where_found)
