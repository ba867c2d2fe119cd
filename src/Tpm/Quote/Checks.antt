-- ===== src/Tpm/Quote/Checks.antt =====
-- What the checks of tpmcommon establish about a quote: its nonce, and PCR[8] for the init data.
use attestation_go.Base.{
  ℕ, zero, suc, ◌+◌, Any, ◌/◌, ◌%◌, ◌≤◌, ◌≡◌, ◌↔◌, inl, inr, refl, sym, ap, ◌∙◌, arith, Bool, true,
  false, not, Option, none, some, List, [], ◌∷◌, ◌++◌, Bytes, bytes_eq, bytes_eq_iff, bytes_eq_refl,
  length, length-append, take, drop, take-append, drop-append, get_elem?, slice, big_endian,
  big_endian_onto, ltb, ◌==◌, ok, bind-eq-ok, refuse_if-eq-ok, Bool-cases, Stdlib,
}
use attestation_go.Tpm.Quote.{
  TpmError, wrong_pcr_size, pcr_not_available, nonce_length_mismatch, no_pcrs, wrong_init_data_size,
  pcr8_not_signed, pcr8_absent, init_data_mismatch, read_be_u16, attest_magic, extract_tpm_nonce,
  verify_tpm_nonce, parse_quote_info, has_index, check_pcr_sizes, concat_selected, pcr_of, zeros_32,
  verify_tpm_pcrs, check_init_data,
}

-- The check of the nonce passes exactly when the message carries the expected nonce.
pub verify_tpm_nonce_iff :
    (m expected : Bytes)
    → (verify_tpm_nonce m expected ≡ ok tt) ↔ (extract_tpm_nonce m ≡ ok expected)
unfolding verify_tpm_nonce
verify_tpm_nonce_iff m expected = (
  λ h.
      let (nonce, e, h1) = bind-eq-ok (extract_tpm_nonce m) _ h in
      let (_, h2) =
        refuse_if-eq-ok (not (length nonce == length expected))
          (nonce_length_mismatch (length nonce) (length expected)) h1 in
      elim (Bool-cases (bytes_eq nonce expected)) [
        | inl same ↦ e ∙ ap ok ((bytes_eq_iff nonce expected).0 same)
        | inr differs ↦ cc (rw differs at h2)
      ],
  λ e. rw (e, bytes_eq_refl expected) (ground arith),
)

-- A TPMS_ATTEST message: magic, type, qualified signer, extra data, and what follows.
unfoldable pub attest : ℕ → ℕ → Bytes → Bytes → Bytes → Bytes
attest t u signer nonce rest =
    255
    ∷ 84
    ∷ 67
    ∷ 71
    ∷ t
    ∷ u
    ∷ (length signer / 256)
    ∷ (length signer % 256)
    ∷ (signer ++ ((length nonce / 256) ∷ (length nonce % 256) ∷ (nonce ++ rest)))

read_be_u16-at :
    (pre rest : Bytes) (n off : ℕ)
    → off ≡ length pre
    → read_be_u16 (pre ++ (n / 256) ∷ (n % 256) ∷ rest) off ≡ ok n
unfolding read_be_u16 big_endian big_endian_onto
read_be_u16-at pre rest n off h =
    let all = length-append pre ((n / 256) ∷ (n % 256) ∷ rest) in
    let within : ltb (length (pre ++ (n / 256) ∷ (n % 256) ∷ rest)) (length pre + 2) ≡ false =
      ground arith in
    rw (h, within, drop-append pre ((n / 256) ∷ (n % 256) ∷ rest)) (ap ok (omega arith))

drop-append_plus : (pre s : Bytes) (k : ℕ) → drop (length pre + k) (pre ++ s) ≡ drop k s
drop-append_plus [] s k = let e : 0 + k ≡ k = omega arith in rw e refl
drop-append_plus (x ∷ pre) s k =
    let e : suc (length pre) + k ≡ suc (length pre + k) = omega arith in
    rw e (drop-append_plus pre s k)

slice_after :
    (pre nonce rest : Bytes) (a b off : ℕ)
    → off ≡ length pre + 2
    → slice (pre ++ (a ∷ b ∷ (nonce ++ rest))) off (length nonce) ≡ nonce
slice_after pre nonce rest a b off h = rw h (
    ap (take (length nonce)) (drop-append_plus pre (a ∷ b ∷ (nonce ++ rest)) 2)
    ∙ take-append nonce rest)

nonce_of :
    (m nonce : Bytes) (s n : ℕ)
    → 10 ≤ length m
    → big_endian (take 4 m) ≡ attest_magic
    → read_be_u16 m 6 ≡ ok s
    → read_be_u16 m (8 + s) ≡ ok n
    → 10 + s + n ≤ length m
    → slice m (10 + s) n ≡ nonce
    → extract_tpm_nonce m ≡ ok nonce
unfolding extract_tpm_nonce
nonce_of m nonce s n wide magic signer size within value =
    let a : ltb (length m) 10 ≡ false = ground arith in
    let b : ltb (length m) (10 + s + n) ≡ false = ground arith in
    rw (a, magic, signer, size, b, value)

-- The nonce is read back from a message that is laid out as a TPMS_ATTEST.
pub extract_tpm_nonce-attest :
    (t u : ℕ) (signer nonce rest : Bytes)
    → extract_tpm_nonce (attest t u signer nonce rest) ≡ ok nonce
unfolding attest big_endian big_endian_onto
extract_tpm_nonce-attest t u signer nonce rest =
    let n = length nonce in
    let k = length signer in
    let tail = (n / 256) ∷ (n % 256) ∷ (nonce ++ rest) in
    let head = 255 ∷ 84 ∷ 67 ∷ 71 ∷ t ∷ u ∷ [] in
    let upto = 255 ∷ 84 ∷ 67 ∷ 71 ∷ t ∷ u ∷ (k / 256) ∷ (k % 256) ∷ signer in
    let total = length-append signer tail in
    let total' = length-append nonce rest in
    let before = length-append signer ((n / 256) ∷ (n % 256) ∷ []) in
    nonce_of (attest t u signer nonce rest) nonce k n (omega arith) refl
      (read_be_u16-at head (signer ++ tail) k 6 refl)
      (read_be_u16-at upto (nonce ++ rest) n (8 + k) (omega arith)) (omega arith)
      (slice_after upto nonce rest (n / 256) (n % 256) (10 + k) (omega arith))

pcr_of-eq-ok : (o : Option Bytes) (e : TpmError) {p : Bytes} → pcr_of o e ≡ ok p → o ≡ some p
pcr_of-eq-ok none e h = cc
pcr_of-eq-ok (some p) e h = cc

-- The values of the selected registers of a bank, each of 32 bytes.
abbrev pub AreSelected : List Bytes → List ℕ → List Bytes → Type 0
AreSelected banks [] [] = Unit {0}
AreSelected banks (i ∷ is) (v ∷ vs) =
    (get_elem? banks i ≡ some v) × (length v ≡ 32) × AreSelected banks is vs
AreSelected banks _ _ = ⊥

abbrev pub joined : List Bytes → Bytes
joined [] = []
joined (v ∷ vs) = v ++ joined vs

sized_at :
    (k : ℕ) (banks : List Bytes) (i : ℕ) {v : Bytes}
    → check_pcr_sizes k banks ≡ ok tt
    → get_elem? banks i ≡ some v
    → length v ≡ 32
unfolding check_pcr_sizes
sized_at k [] i h e = cc e
sized_at k (p ∷ banks) zero {v} h e =
    let (wide, _) = refuse_if-eq-ok (not (length p == 32)) (wrong_pcr_size k (length p)) h in
    let same : p ≡ v = cc (e) in let width : length p ≡ 32 = ground arith in rw same at width
sized_at k (p ∷ banks) (suc i) h e =
    let (_, rest) = refuse_if-eq-ok (not (length p == 32)) (wrong_pcr_size k (length p)) h in
    sized_at (k + 1) banks i rest e

concat_selected_sound :
    (banks : List Bytes) (selected : List ℕ) {values : Bytes}
    → check_pcr_sizes 0 banks ≡ ok tt
    → concat_selected banks selected ≡ ok values
    → (vs : List Bytes) × AreSelected banks selected vs × (values ≡ joined vs)
unfolding concat_selected
concat_selected_sound banks [] {values} sizes h = ([], tt, cc h)
concat_selected_sound banks (i ∷ is) {values} sizes h =
    let (v, at, h1) =
      bind-eq-ok (pcr_of (get_elem? banks i) (pcr_not_available i (length banks))) _ h in
    let (rest, more, h2) = bind-eq-ok (concat_selected banks is) _ h1 in
    let there = pcr_of-eq-ok (get_elem? banks i) (pcr_not_available i (length banks)) at in
    let (vs, all, same) = concat_selected_sound banks is sizes more in
    let e : v ++ rest ≡ values = cc (h2) in
    (v ∷ vs, (there, sized_at 0 banks i sizes there, all), sym e ∙ ap (λ s. v ++ s) same)

has_index-Any : (is : List ℕ) (k : ℕ) → has_index is k ≡ true → Any (λ i. i ≡ k) is
unfolding has_index
has_index-Any [] k h = cc h
has_index-Any (i ∷ is) k h = elim (Bool-cases (k == i)) [
  | inl same ↦ inl (ground arith)
  | inr other ↦ inr (has_index-Any is k (rw other at h))
]

module _ ⦃lib : Stdlib⦄ where
  verify_tpm_pcrs_sound :
      (m : Bytes) (banks : List Bytes)
      → verify_tpm_pcrs m banks ≡ ok tt
      → (selected : List ℕ) × (values : List Bytes) × (parse_quote_info m
          ≡ ok (selected, lib.sha256 (joined values)))
        × AreSelected banks selected values
  unfolding verify_tpm_pcrs
  verify_tpm_pcrs_sound m banks h =
      let (_, h1) = refuse_if-eq-ok (length banks == 0) no_pcrs h in
      let (_, sizes, h2) = bind-eq-ok (check_pcr_sizes 0 banks) _ h1 in
      let ((selected, expected), e, h3) = bind-eq-ok (parse_quote_info m) _ h2 in
      let (values, f, h4) = bind-eq-ok (concat_selected banks selected) _ h3 in
      let (vs, all, whole) = concat_selected_sound banks selected sizes f in
      elim (Bool-cases (bytes_eq (lib.sha256 values) expected)) [
        | inl same ↦ (
          selected,
          vs,
          e
              ∙ ap (λ d. ok (selected, d))
                  (sym ((bytes_eq_iff (lib.sha256 values) expected).0 same))
              ∙ ap (λ s. ok (selected, lib.sha256 s)) whole,
          all,
        )
        | inr differs ↦ cc (rw differs at h4)
      ]

  -- When the PCR bank and the init data of a quote both pass, the digest that the quote signs is the
  -- SHA-256 of the values of the selected registers, one after another, each the bank's value of its
  -- index and 32 bytes wide; PCR[8] is among the selected, and its value extends zero by the expected
  -- hash. The verdict is affirmative.
  pub check_init_data_sound :
      (m : Bytes) (banks : List Bytes) (expected : Bytes) {verdict : Option Bool}
      → verify_tpm_pcrs m banks ≡ ok tt
      → check_init_data m banks (some expected) ≡ ok verdict
      → (selected : List ℕ) × (values : List Bytes) × (parse_quote_info m
          ≡ ok (selected, lib.sha256 (joined values)))
        × AreSelected banks selected values
        × Any (λ i. i ≡ 8) selected
        × (get_elem? banks 8 ≡ some (lib.sha256 (zeros_32 ++ expected)))
        × (verdict ≡ some true)
  unfolding check_init_data
  check_init_data_sound m banks expected {verdict} pcrs_hold h =
      let (selected, values, signed, all) = verify_tpm_pcrs_sound m banks pcrs_hold in
      let (_, h1) =
        refuse_if-eq-ok (not (length expected == 32)) (wrong_init_data_size (length expected)) h in
      let ((selected', _), e, h2) = bind-eq-ok (parse_quote_info m) _ h1 in
      let one_selection : selected' ≡ selected = cc (sym e ∙ signed) in
      let (covered, h3) = refuse_if-eq-ok (not (has_index selected' 8)) pcr8_not_signed h2 in
      let (p, at8, h4) = bind-eq-ok (pcr_of (get_elem? banks 8) pcr8_absent) _ h3 in
      let (matches, h5) =
        refuse_if-eq-ok (not (bytes_eq p (lib.sha256 (zeros_32 ++ expected)))) init_data_mismatch
          h4 in
      let value : p ≡ lib.sha256 (zeros_32 ++ expected) =
        (bytes_eq_iff p (lib.sha256 (zeros_32 ++ expected))).0 (ground arith) in
      let there = rw one_selection at covered in
      (
        selected,
        values,
        signed,
        all,
        has_index-Any selected 8 (ground arith),
        pcr_of-eq-ok (get_elem? banks 8) pcr8_absent at8 ∙ ap some value,
        cc h5,
      )
