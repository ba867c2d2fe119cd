-- ===== src/Tests/Quotes.antt =====
-- An Azure guest's quote: it selects PCR[8], which extends zero by an init data hash.
use attestation_go.Base.{
  ℕ, ◌≡◌, refl, arith, pos, true, Option, some, List, [], ◌∷◌, ◌++◌, Bytes, IsBytes, codes,
  bytes_eq, bytes_eq_refl, replicate, get_elem?, All, Any, big_endian, Result, ok,
}
use attestation_go.Teetypes.Platform.{has_vtpm_quote}
use attestation_go.Teetypes.Digest.{parse_digest, hex_decode, hex_encode}
use attestation_go.Teetypes.Claims.{lookup, Claims, pcr}
use attestation_go.Tpm.Quote.{
  RawTpmQuote, parse_quote_info, extract_tpm_nonce, has_index, signed_pcr_selection, zeros_32,
  verify_tpm_nonce, verify_tpm_pcrs, check_init_data,
}
use attestation_go.Tpm.Quote.Checks.{
  AreSelected, joined, attest, extract_tpm_nonce-attest, verify_tpm_nonce_iff,
  check_init_data_sound,
}
use attestation_go.Tpm.Overlay.{apply_tpm_claims}
use attestation_go.Tpm.Overlay.Signed.{pcr-apply_tpm_claims}
use attestation_go.Remote.Policies.{AttestationEvidence, signed_pcr_selection_of, enforce_pcrs}
use attestation_go.Remote.Policies.Pcrs.{enforce_pcrs_iff}
use attestation_go.Tests.Bindings.{tdx_claims}
use attestation_go.Tests.{toy}

abbrev init_data : Bytes
init_data = replicate 32 5

abbrev pcr8 : Bytes
pcr8 = toy.sha256 (zeros_32 ++ init_data)

abbrev banks : List Bytes
banks = replicate 8 zeros_32 ++ pcr8 ∷ []

-- Clock and firmware, one selection of three bytes with bit 0 of the second set, and the digest.
abbrev quoted : Bytes
quoted = replicate 25 0 ++ (0 ∷ 0 ∷ 0 ∷ 1 ∷ 0 ∷ 11 ∷ 3 ∷ 0 ∷ 1 ∷ 0 ∷ 0 ∷ 32 ∷ toy.sha256 pcr8)

abbrev nonce : Bytes
nonce = codes "nonce"

abbrev message : Bytes
message = attest 128 24 (codes "ak") nonce quoted

reads_the_nonce : extract_tpm_nonce message ≡ ok nonce
reads_the_nonce = extract_tpm_nonce-attest 128 24 (codes "ak") nonce quoted

nonce_read : extract_tpm_nonce message ≡ ok nonce
unfolding extract_tpm_nonce attest big_endian
nonce_read = refl

nonce_verified : verify_tpm_nonce message nonce ≡ ok tt
nonce_verified = (verify_tpm_nonce_iff message nonce).1 nonce_read

info : parse_quote_info message ≡ ok (8 ∷ [], toy.sha256 pcr8)
unfolding parse_quote_info attest big_endian
info = refl

pcrs_hold : verify_tpm_pcrs ⦃lib = toy⦄ message banks ≡ ok tt
unfolding verify_tpm_pcrs
pcrs_hold = rw (info, bytes_eq_refl (toy.sha256 pcr8)) refl

index_8 : has_index (8 ∷ []) 8 ≡ true
unfolding has_index
index_8 = refl

init_holds : check_init_data ⦃lib = toy⦄ message banks (some init_data) ≡ ok (some true)
unfolding check_init_data
init_holds = rw (info, bytes_eq_refl pcr8) refl

check_init_data_sound_example :
    (selected : List ℕ) × (values : List Bytes) × (parse_quote_info message
      ≡ ok (selected, toy.sha256 (joined values)))
    × AreSelected banks selected values
    × Any (λ i. i ≡ 8) selected
    × (get_elem? banks 8 ≡ some (toy.sha256 (zeros_32 ++ init_data)))
    × (some true ≡ some true)
check_init_data_sound_example =
    check_init_data_sound ⦃lib = toy⦄ message banks init_data pcrs_hold init_holds

selection : signed_pcr_selection message ≡ ok (8 ∷ [])
unfolding signed_pcr_selection
selection = rw info refl

zeros_32-IsBytes : IsBytes zeros_32
zeros_32-IsBytes = ground arith

abbrev claims : Claims
claims = apply_tpm_claims tdx_claims banks message

read_8 : pcr claims (pos 8) ≡ ok pcr8
unfolding apply_tpm_claims pcr lookup bytes_eq parse_digest
read_8 = rw (selection, nonce_read) refl

pcr8-IsBytes : IsBytes pcr8
pcr8-IsBytes = ground arith

banks-IsBytes : All IsBytes banks
banks-IsBytes =
    let z = zeros_32-IsBytes in (z, (z, (z, (z, (z, (z, (z, (z, (pcr8-IsBytes, tt)))))))))

pcr-apply_tpm_claims_example :
    (signed : List ℕ) × (signed_pcr_selection message ≡ ok signed)
    × (has_index signed 8 ≡ true)
    × (get_elem? banks 8 ≡ some pcr8)
pcr-apply_tpm_claims_example = pcr-apply_tpm_claims tdx_claims banks message 8 banks-IsBytes read_8

-- An evidence that encoding/json reads as the quote.
abbrev unmarshal : Bytes → Result Bytes (Option RawTpmQuote)
unmarshal evidence =
    ok (some (record { raw_signature = []; raw_message = hex_encode message; raw_pcrs = [] }))

abbrev evidence : AttestationEvidence
evidence = record { evidence_platform = codes "az-snp"; evidence = [] }

message_read : hex_decode (hex_encode message) ≡ some message
unfolding hex_decode hex_encode attest
message_read = refl

selected : signed_pcr_selection_of ⦃lib = toy⦄ unmarshal [] ≡ ok (8 ∷ [])
unfolding signed_pcr_selection_of
selected = rw (message_read, selection) refl

quoting : has_vtpm_quote ⦃lib = toy⦄ (codes "az-snp") ≡ true
unfolding has_vtpm_quote bytes_eq
quoting = refl

enforce_pcrs_iff_example :
    enforce_pcrs ⦃lib = toy⦄ unmarshal evidence claims ((pos 8, pcr8) ∷ []) ≡ ok tt
enforce_pcrs_iff_example =
    (enforce_pcrs_iff ⦃lib = toy⦄ unmarshal evidence claims (pos 8, pcr8) []).1
      (quoting, 8 ∷ [], selected, ((index_8, read_8), tt))
