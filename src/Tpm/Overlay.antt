-- ===== src/Tpm/Overlay.antt =====
-- ApplyTPMClaims of attestation/tpmcommon/tpmcommon.go: what of the vTPM quote the claims publish.
pub mod Signed
use attestation_go.Base.{
  ℕ, zero, suc, ◌+◌, ◌/◌, ◌%◌, Option, none, some, List, [], ◌∷◌, ◌++◌, Bytes, codes, get_elem?,
  ltb, if◌then◌else◌, Result, ok, err, ◌>>=◌,
}
use attestation_go.Teetypes.Digest.{hex_encode}
use attestation_go.Teetypes.Claims.{Value, text, object, Fields, no_fields, field, Claims}
use attestation_go.Tpm.Hcl.{strip_trailing_nulls}
use attestation_go.Tpm.Quote.{TpmError, extract_tpm_nonce, signed_pcr_selection}

-- "%d" of `n`, where `n` is below 10 to the power of one more than the first argument.
unfoldable pub decimal : ℕ → ℕ → Bytes
decimal zero n = (48 + n) ∷ []
decimal (suc k) n = if ltb n 10 then (48 + n) ∷ [] else decimal k (n / 10) ++ (48 + n % 10) ∷ []

-- "pcr%02d"; a bitmap has at most 255 bytes, so an index has at most four digits.
unfoldable pub pcr_name : ℕ → Bytes
unfolding decimal
pcr_name i = codes "pcr" ++ decimal 3 (i / 10) ++ (48 + i % 10) ∷ []

-- `tpm[key] = value` for the value at an index, when the bank has it.
abbrev publish_one : ℕ → Option Bytes → Fields → Fields
publish_one i (some p) tpm = field (pcr_name i) (text (hex_encode p)) tpm
publish_one i none tpm = tpm

-- The loop over the selection; an assignment stands before the entries that it hides.
unfoldable pub publish_pcrs : List Bytes → List ℕ → Fields → Fields
unfolding pcr_name hex_encode
publish_pcrs banks [] tpm = tpm
publish_pcrs banks (i ∷ is) tpm = publish_pcrs banks is (publish_one i (get_elem? banks i) tpm)

abbrev selection_or_none : Result TpmError (List ℕ) → List ℕ
selection_or_none (ok is) = is
selection_or_none (err e) = []

abbrev put_tpm : Claims → Bytes → Fields → Claims
put_tpm c signed tpm = record {
  launch_digest = c.launch_digest;
  report_data = c.report_data;
  signed_data = signed;
  init_data = c.init_data;
  tcb = c.tcb;
  platform_data = field (codes "tpm") (object tpm) c.platform_data;
}

abbrev with_nonce : Claims → Fields → Result TpmError Bytes → Claims
with_nonce c tpm (ok nonce) =
    put_tpm c (strip_trailing_nulls nonce) (field (codes "nonce") (text (hex_encode nonce)) tpm)
with_nonce c tpm (err e) = put_tpm c c.signed_data tpm

-- ApplyTPMClaims
unfoldable pub apply_tpm_claims : Claims → List Bytes → Bytes → Claims
unfolding publish_pcrs hex_encode strip_trailing_nulls
apply_tpm_claims c banks m =
    with_nonce c (publish_pcrs banks (selection_or_none (signed_pcr_selection m)) no_fields)
      (extract_tpm_nonce m)
