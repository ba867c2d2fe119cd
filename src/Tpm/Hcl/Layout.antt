-- ===== src/Tpm/Hcl/Layout.antt =====
-- What an HCL report that parses holds.
use attestation_go.Base.{
  ℕ, ◌-◌, ◌+◌, ◌≤◌, ◌<◌, ◌≡◌, refl, arith, Bool, true, false, not, Bytes, codes, bytes_eq,
  bytes_eq_iff, length, take, drop, slice, little_endian, length-take, length-drop, ltb, ◌==◌, ok,
  refuse_if-eq-ok, inl, inr, Bool-cases, suc, replicate, ◌++◌, ◌∷◌, [], ap,
}
use attestation_go.Tpm.Hcl.{
  HclReport, too_short, bad_magic, content_too_long, empty_var_data, strip_trailing_nulls,
  report_of, parse_hcl_report, keep_null,
}

length-slice : (s : Bytes) (off n : ℕ) → off + n ≤ length s → length (slice s off n) ≡ n
length-slice s off n h = omega (arith, length-take n (drop off s), length-drop off s)

holds_of_not : (b : Bool) → not b ≡ false → b ≡ true
holds_of_not true h = refl
holds_of_not false h = cc h

at_least : (n m : ℕ) → ltb n m ≡ false → m ≤ n
at_least n m h = ground arith

positive : (n : ℕ) → (n == 0) ≡ false → 0 < n
positive n h = ground arith

fits_behind : (len n : ℕ) → 1236 ≤ len → ltb (len - 1236) n ≡ false → 1236 + n ≤ len
fits_behind len n h g = ground arith

-- That a text is another followed by zeros alone, and that the other does not end in a zero.
abbrev pub IsPaddedBy : Bytes → ℕ → Bytes → Type 0
IsPaddedBy s n whole = whole ≡ s ++ replicate n 0

abbrev pub EndsNonzero : Bytes → Type 0
EndsNonzero [] = Unit {0}
EndsNonzero (b ∷ []) = 0 < b
EndsNonzero (b ∷ c ∷ s) = EndsNonzero (c ∷ s)

zeros-cons : (b : ℕ) (s : Bytes) (n : ℕ) → b ≡ 0 → s ≡ replicate n 0 → b ∷ s ≡ replicate (suc n) 0
zeros-cons b s n e h = cc

keep_null_lem :
    (b : ℕ) (s t : Bytes)
    → EndsNonzero t
    → (n : ℕ) × IsPaddedBy t n s
    → ((n : ℕ) × IsPaddedBy (keep_null b t) n (b ∷ s)) × EndsNonzero (keep_null b t)
keep_null_lem b s [] ends (n, e) = elim (Bool-cases (b == 0)) [
  | inl null ↦
      let zero_byte : b ≡ 0 = ground arith in rw null ((suc n, zeros-cons b s n zero_byte e), tt)
  | inr other ↦ let not_zero : 0 < b = ground arith in rw other ((n, ap (λ r. b ∷ r) e), not_zero)
]
keep_null_lem b s (c ∷ t) ends (n, e) = ((n, ap (λ r. b ∷ r) e), ends)

strip_trailing_nulls_sound :
    (s : Bytes)
    → ((n : ℕ) × IsPaddedBy (strip_trailing_nulls s) n s) × EndsNonzero (strip_trailing_nulls s)
unfolding strip_trailing_nulls
strip_trailing_nulls_sound [] = ((0, refl), tt)
strip_trailing_nulls_sound (b ∷ s) =
    let (whole, ends) = strip_trailing_nulls_sound s in
    keep_null_lem b s (strip_trailing_nulls s) ends whole

-- A report that parses starts with the magic; its hardware report is the 1184 bytes behind the first 32,
-- its type is the field at 8 of the header, and its runtime data is not empty, does not end in a
-- null, and is followed in the content by nulls alone; the content lies within the report.
pub parse_hcl_report_sound :
    (hcl : Bytes) {r : HclReport}
    → parse_hcl_report hcl ≡ ok r
    → (take 4 hcl ≡ codes "HCLA")
      × (r.tee_report ≡ slice hcl 32 1184)
      × (length r.tee_report ≡ 1184)
      × (r.report_type ≡ little_endian (slice (slice hcl 1216 20) 8 4))
      × ((n : ℕ) × IsPaddedBy r.var_data n
            (slice hcl 1236 (little_endian (slice (slice hcl 1216 20) 16 4))))
      × EndsNonzero r.var_data
      × (0 < length r.var_data)
      × (1236 + little_endian (slice (slice hcl 1216 20) 16 4) ≤ length hcl)
unfolding parse_hcl_report report_of
parse_hcl_report_sound hcl {r} h =
    let kind = little_endian (slice (slice hcl 1216 20) 8 4) in
    let n = little_endian (slice (slice hcl 1216 20) 16 4) in
    let content = strip_trailing_nulls (slice hcl 1236 n) in
    let (long, h1) = refuse_if-eq-ok (ltb (length hcl) 1236) (too_short (length hcl)) h in
    let (magic, h2) =
      refuse_if-eq-ok (not (bytes_eq (take 4 hcl) (codes "HCLA"))) (bad_magic (take 4 hcl)) h1 in
    let (fits, h3) =
      refuse_if-eq-ok (ltb (length hcl - 1236) n) (content_too_long n (length hcl - 1236)) h2 in
    let (filled, h4) = refuse_if-eq-ok (length content == 0) empty_var_data h3 in
    let e : record { tee_report = slice hcl 32 1184; report_type = kind; var_data = content } ≡ r =
      cc in
    rw (← e) (
      (bytes_eq_iff (take 4 hcl) (codes "HCLA")).0
          (holds_of_not (bytes_eq (take 4 hcl) (codes "HCLA")) magic),
      refl,
      length-slice hcl 32 1184 (omega (arith, at_least (length hcl) 1236 long)),
      refl,
      (strip_trailing_nulls_sound (slice hcl 1236 n)).0,
      (strip_trailing_nulls_sound (slice hcl 1236 n)).1,
      positive (length content) filled,
      fits_behind (length hcl) n (at_least (length hcl) 1236 long) fits,
    )
