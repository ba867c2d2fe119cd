-- ===== src/Tpm/Overlay/Signed.antt =====
-- The registers that ApplyTPMClaims publishes are those that the quote's signature covers.
use attestation_go.Base.{
  ℕ, zero, suc, ◌+◌, ◌/◌, ◌%◌, ◌≤◌, ◌<◌, ◌≡◌, ◌⊎◌, inl, inr, sym, ap, ◌∙◌, arith, Bool, true, false,
  some, List, [], ◌∷◌, ◌++◌, Bytes, IsBytes, All, bytes_eq, bytes_eq_iff, length, length-append,
  get_elem?, ltb, leb, Result, ok, err, bind-eq-ok, map_err-eq-ok, Bool-cases, Option-cases,
  Result-cases, pos,
}
use attestation_go.Teetypes.Digest.{parse_digest, hex_encode, hex_decode}
use attestation_go.Teetypes.Digest.RoundTrip.{hex_decode-hex_encode, hex_encode-parse_digest}
use attestation_go.Teetypes.Claims.{
  Value, text, object, Fields, no_fields, lookup, Claims, malformed, text_at, pcr_key, pcr_at, pcr,
}
use attestation_go.Teetypes.Claims.Registers.{text_at-eq-ok}
use attestation_go.Tpm.Quote.{TpmError, extract_tpm_nonce, signed_pcr_selection, has_index}
use attestation_go.Tpm.Overlay.{
  decimal, pcr_name, publish_one, publish_pcrs, with_nonce, apply_tpm_claims,
}

length-decimal : (k n : ℕ) → 1 ≤ length (decimal k n)
unfolding decimal
length-decimal zero n = omega arith
length-decimal (suc k) n = elim (Bool-cases (ltb n 10)) [
  | inl small ↦ rw small (omega arith)
  | inr large ↦ rw (large, length-append (decimal k (n / 10)) ((48 + n % 10) ∷ [])) (omega arith)
]

-- The name of a register of the bank of 24 is no other index's name.
pcr_name-pcr_key : (j i : ℕ) → i < 24 → pcr_name j ≡ pcr_key i → j ≡ i
unfolding pcr_name decimal
pcr_name-pcr_key j i bound h = elim (Bool-cases (ltb (j / 10) 10)) [
  | inl small ↦
      let h' = rw small at h in
      let tens : 48 + j / 10 ≡ 48 + i / 10 = cc h' in
      let ones : 48 + j % 10 ≡ 48 + i % 10 = cc h' in omega arith
  | inr large ↦
      let wide = ap length (rw large at h) in
      let a = length-decimal 2 (j / 10 / 10) in
      let b = length-append (decimal 2 (j / 10 / 10)) ((48 + j / 10 % 10) ∷ []) in
      let c =
        length-append (decimal 2 (j / 10 / 10) ++ (48 + j / 10 % 10) ∷ []) ((48 + j % 10) ∷ []) in
      absurd (omega arith)
]

-- An index, a bank and a selection that a published field stands for.
abbrev Published : List Bytes → List ℕ → Bytes → Value → Type 0
Published banks is key v =
    (j : ℕ) × (p : Bytes) × (has_index is j ≡ true)
    × (get_elem? banks j ≡ some p)
    × (pcr_name j ≡ key)
    × (v ≡ text (hex_encode p))

later :
    (banks : List Bytes) (is : List ℕ) (i : ℕ) (key : Bytes) (v : Value)
    → Published banks is key v
    → Published banks (i ∷ is) key v
unfolding has_index
later banks is i key v (j, p, chosen, present, named, value) =
    (j, p, ground arith, present, named, value)

lookup-publish_one :
    (banks : List Bytes) (is : List ℕ) (i : ℕ) (tpm : Fields) (key : Bytes) {v : Value}
    → lookup key (publish_one i (get_elem? banks i) tpm) ≡ some v
    → Published banks (i ∷ is) key v ⊎ (lookup key tpm ≡ some v)
unfolding lookup has_index
lookup-publish_one banks is i tpm key {v} h = elim (Option-cases (get_elem? banks i)) [
  | inl absent ↦ inr (rw absent at h)
  | inr (p, present) ↦ elim (Bool-cases (bytes_eq (pcr_name i) key)) [
    | inl same ↦
        let e : some (text (hex_encode p)) ≡ some v = rw (present, same) at h in
        let e' : text (hex_encode p) ≡ v = cc e in
        inl (i, p, ground arith, present, (bytes_eq_iff (pcr_name i) key).0 same, sym e')
    | inr other ↦ inr (rw (present, other) at h)
  ]
]

lookup-publish_pcrs :
    (banks : List Bytes) (is : List ℕ) (tpm : Fields) (key : Bytes) {v : Value}
    → lookup key (publish_pcrs banks is tpm) ≡ some v
    → Published banks is key v ⊎ (lookup key tpm ≡ some v)
unfolding publish_pcrs
lookup-publish_pcrs banks [] tpm key h = inr h
lookup-publish_pcrs banks (i ∷ is) tpm key {v} h =
    elim (lookup-publish_pcrs banks is (publish_one i (get_elem? banks i) tpm) key h) [
      | inl p ↦ inl (later banks is i key v p)
      | inr h' ↦ lookup-publish_one banks is i tpm key h'
    ]

read-with_nonce :
    (c : Claims) (tpm : Fields) (nonce : Result TpmError Bytes) (i : ℕ) {b : Bytes}
    → leb 24 i ≡ false
    → pcr (with_nonce c tpm nonce) (pos i) ≡ ok b
    → pcr_at (some (object tpm)) i ≡ ok b
unfolding pcr pcr_at lookup bytes_eq
read-with_nonce c tpm (ok n) i within h = rw within at h
read-with_nonce c tpm (err e) i within h = rw within at h

-- With an empty object to start from, every field but the nonce comes from the selection.
lookup-with_nonce :
    (c : Claims) (banks : List Bytes) (is : List ℕ) (nonce : Result TpmError Bytes) (i : ℕ)
    {b : Bytes}
    → pcr (with_nonce c (publish_pcrs banks is no_fields) nonce) (pos i) ≡ ok b
    → (i < 24) × (v : Bytes) × Published banks is (pcr_key i) (text v) × (parse_digest v 32 ≡ ok b)
unfolding pcr pcr_at lookup
lookup-with_nonce c banks is nonce i {b} h = elim (Bool-cases (leb 24 i)) [
  | inl out ↦ cc (rw out at h)
  | inr within ↦
      let read = read-with_nonce c (publish_pcrs banks is no_fields) nonce i within h in
      let (v, e, p) =
        bind-eq-ok (text_at (lookup (pcr_key i) (publish_pcrs banks is no_fields)) (pcr_key i)) _
          read in
      elim (lookup-publish_pcrs banks is no_fields (pcr_key i)
        (text_at-eq-ok (lookup (pcr_key i) (publish_pcrs banks is no_fields)) (pcr_key i) e)) [
          | inl found ↦
              (ground arith, v, found, map_err-eq-ok (malformed (pcr_key i)) (parse_digest v 32) p)
          | inr bad ↦ cc bad
        ]
]

no_selection :
    (i : ℕ) (banks : List Bytes) (v : Value)
    → Published banks [] (pcr_key i) v
    → ◌≡◌ {A = Bool} false true
unfolding has_index
no_selection i banks v (j, p, chosen, present, named, value) = chosen

All-get :
    (banks : List Bytes) (i : ℕ) {p : Bytes}
    → All IsBytes banks
    → get_elem? banks i ≡ some p
    → IsBytes p
All-get [] i h e = cc e
All-get (x ∷ xs) zero {p} h e = let same : x ≡ p = cc e in rw (← same) h.0
All-get (x ∷ xs) (suc i) h e = All-get xs i h.1 e

same_digest : (p : Bytes) {b : Bytes} → IsBytes p → parse_digest (hex_encode p) 32 ≡ ok b → p ≡ b
same_digest p {b} octets h =
    let (enc, ob, len) = hex_encode-parse_digest (hex_encode p) 32 h in
    let read : some p ≡ some b =
      sym (hex_decode-hex_encode p octets) ∙ ap hex_decode (sym enc) ∙ hex_decode-hex_encode b ob in
    cc read

-- When PCR `i` reads back from the claims that the overlay of a quote on banks of bytes gives, the quote's
-- signed selection parses, `i` is in it, and the value is the bank's value at `i`.
pub pcr-apply_tpm_claims :
    (c : Claims) (banks : List Bytes) (m : Bytes) (i : ℕ) {b : Bytes}
    → All IsBytes banks
    → pcr (apply_tpm_claims c banks m) (pos i) ≡ ok b
    → (signed : List ℕ) × (signed_pcr_selection m ≡ ok signed)
      × (has_index signed i ≡ true)
      × (get_elem? banks i ≡ some b)
unfolding apply_tpm_claims
pcr-apply_tpm_claims c banks m i {b} octets h = elim (Result-cases (signed_pcr_selection m)) [
  | inl (signed, e) ↦
      let (bound, v, (j, p, chosen, present, named, value), parsed) =
        lookup-with_nonce c banks signed (extract_tpm_nonce m) i (rw e at h) in
      let same_index : j ≡ i = pcr_name-pcr_key j i bound named in
      let same_text : v ≡ hex_encode p = cc value in
      let same_value : p ≡ b =
        same_digest p (All-get banks j octets present) (rw same_text at parsed) in
      (signed, e, rw same_index at chosen, rw (same_index, same_value) at present)
  | inr (e, failed) ↦
      let (bound, v, found, parsed) =
        lookup-with_nonce c banks [] (extract_tpm_nonce m) i (rw failed at h) in
      cc (no_selection i banks (text v) found)
]
