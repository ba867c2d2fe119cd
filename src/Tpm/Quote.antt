-- ===== src/Tpm/Quote.antt =====
-- The vTPM quote of attestation/tpmcommon/tpmcommon.go: a TPMS_ATTEST message with the relying party's
-- nonce, the selection of the PCRs that it covers and the digest of their values.
pub mod Checks
use attestation_go.Base.{
  ℕ, zero, suc, ◌+◌, ◌-◌, ◌/◌, ◌%◌, Bool, true, false, not, ◌||◌, Option, none, some, List, [], ◌∷◌,
  ◌++◌, Bytes, bytes_eq, length, take, drop, replicate, get_elem?, slice, big_endian, ltb, leb,
  ◌==◌, if◌then◌else◌, Result, ok, err, ◌>>=◌, ◌>>◌, refuse_if, Stdlib,
}
use attestation_go.Teetypes.Digest.{hex_decode}

pub data TpmError : Type 0 where
  bad_hex_signature bad_hex_message : TpmError
  bad_hex_pcr : ℕ → TpmError
  attest_too_short : ℕ → TpmError
  bad_attest_magic : ℕ → TpmError
  truncated : ℕ → TpmError
  nonce_length_mismatch : ℕ → ℕ → TpmError
  nonce_mismatch : TpmError
  no_pcrs : TpmError
  wrong_pcr_size : ℕ → ℕ → TpmError
  pcr_not_available : ℕ → ℕ → TpmError
  pcr_digest_mismatch : TpmError
  wrong_init_data_size : ℕ → TpmError
  pcr8_not_signed pcr8_absent init_data_mismatch : TpmError

-- RawTPMQuote, the hex-encoded form in the evidence.
pub record RawTpmQuote : Type 0 where
  pub raw_signature : Bytes
  pub raw_message : Bytes
  pub raw_pcrs : List Bytes

pub record TpmQuote : Type 0 where
  pub signature : Bytes
  pub message : Bytes
  pub pcrs : List Bytes

abbrev decoded : Option Bytes → TpmError → Result TpmError Bytes
decoded (some b) e = ok b
decoded none e = err e

decode_pcrs : ℕ → List Bytes → Result TpmError (List Bytes)
decode_pcrs i [] = ok []
decode_pcrs i (p ∷ ps) = do
  b ← decoded (hex_decode p) (bad_hex_pcr i)
  bs ← decode_pcrs (i + 1) ps
  ok (b ∷ bs)

-- DecodeTPMQuote
unfoldable pub decode_tpm_quote : RawTpmQuote → Result TpmError TpmQuote
unfolding hex_decode decode_pcrs
decode_tpm_quote raw = do
  sig ← decoded (hex_decode raw.raw_signature) bad_hex_signature
  msg ← decoded (hex_decode raw.raw_message) bad_hex_message
  banks ← decode_pcrs 0 raw.raw_pcrs
  ok (record { signature = sig; message = msg; pcrs = banks })

unfoldable pub read_be_u16 : Bytes → ℕ → Result TpmError ℕ
unfolding big_endian
read_be_u16 m off =
    refuse_if (ltb (length m) (off + 2)) (truncated off) >> ok (big_endian (slice m off 2))

unfoldable pub read_be_u32 : Bytes → ℕ → Result TpmError ℕ
unfolding big_endian
read_be_u32 m off =
    refuse_if (ltb (length m) (off + 4)) (truncated off) >> ok (big_endian (slice m off 4))

-- 0xFF544347, "\xFFTCG"
abbrev pub attest_magic : ℕ
attest_magic = 4283712327

-- ExtractTPMNonce
unfoldable pub extract_tpm_nonce : Bytes → Result TpmError Bytes
unfolding read_be_u16 big_endian
extract_tpm_nonce m = do
  refuse_if (ltb (length m) 10) (attest_too_short (length m))
  refuse_if (not (big_endian (take 4 m) == attest_magic)) (bad_attest_magic (big_endian (take 4 m)))
  signer_size ← read_be_u16 m 6
  nonce_size ← read_be_u16 m (8 + signer_size)
  refuse_if (ltb (length m) (10 + signer_size + nonce_size)) (truncated (10 + signer_size))
  ok (slice m (10 + signer_size) nonce_size)

-- VerifyTPMNonce
unfoldable pub verify_tpm_nonce : Bytes → Bytes → Result TpmError (Unit {0})
verify_tpm_nonce m expected = do
  nonce ← extract_tpm_nonce m
  refuse_if (not (length nonce == length expected))
      (nonce_length_mismatch (length nonce) (length expected))
  refuse_if (not (bytes_eq nonce expected)) nonce_mismatch

-- CheckReportData; `none` is a nil expectation, or a nil verdict.
unfoldable pub check_report_data : Bytes → Option Bytes → Result TpmError (Option Bool)
check_report_data m none = ok none
check_report_data m (some expected) = verify_tpm_nonce m expected >> ok (some true)

-- The indices from `i` on of the bits that are set among the lowest `n` of `b`.
unfoldable pub set_bits : ℕ → ℕ → ℕ → List ℕ
set_bits i zero b = []
set_bits i (suc n) b =
    let rest = set_bits (i + 1) n (b / 2) in if b % 2 == 1 then i ∷ rest else rest

-- The indices that a selection bitmap selects, its first byte standing for `i` and the seven after it.
unfoldable pub selected_in : ℕ → Bytes → List ℕ
unfolding set_bits
selected_in i [] = []
selected_in i (b ∷ bs) = set_bits i 8 b ++ selected_in (i + 8) bs

abbrev byte_at : ℕ → Bytes → Result TpmError ℕ
byte_at off [] = err (truncated off)
byte_at off (b ∷ s) = ok b

-- The loop over the selections, with the offset after the last.
unfoldable pub read_selections : Bytes → ℕ → ℕ → Result TpmError (List ℕ × ℕ)
unfolding read_be_u16 selected_in
read_selections m zero off = ok ([], off)
read_selections m (suc n) off = do
  read_be_u16 m off >>= λ _. ok tt
  select_size ← byte_at (off + 2) (drop (off + 2) m)
  refuse_if (ltb (length m) (off + 3 + select_size)) (truncated (off + 3))
  (rest, next) ← read_selections m n (off + 3 + select_size)
  ok (selected_in 0 (slice m (off + 3) select_size) ++ rest, next)

-- parseQuoteInfo
unfoldable pub parse_quote_info : Bytes → Result TpmError (List ℕ × Bytes)
unfolding read_be_u16 read_be_u32 read_selections
parse_quote_info m = do
  refuse_if (ltb (length m) 10) (attest_too_short (length m))
  signer_size ← read_be_u16 m 6
  extra_size ← read_be_u16 m (8 + signer_size)
  let off = 10 + signer_size + extra_size + 17 + 8
  count ← read_be_u32 m off
  (selected, next) ← read_selections m count (off + 4)
  digest_size ← read_be_u16 m next
  refuse_if (ltb (length m) (next + 2 + digest_size)) (truncated (next + 2))
  ok (selected, slice m (next + 2) digest_size)

insert_index : ℕ → List ℕ → List ℕ
insert_index i [] = i ∷ []
insert_index i (j ∷ js) = if leb i j then i ∷ j ∷ js else j ∷ insert_index i js

-- slices.Sort of indices
unfoldable pub sort_indices : List ℕ → List ℕ
unfolding insert_index
sort_indices [] = []
sort_indices (i ∷ is) = insert_index i (sort_indices is)

-- slices.Contains of indices
unfoldable pub has_index : List ℕ → ℕ → Bool
has_index [] i = false
has_index (j ∷ js) i = i == j || has_index js i

-- SignedPCRSelection
unfoldable pub signed_pcr_selection : Bytes → Result TpmError (List ℕ)
unfolding sort_indices
signed_pcr_selection m = parse_quote_info m >>= λ info. ok (sort_indices info.0)

unfoldable pub check_pcr_sizes : ℕ → List Bytes → Result TpmError (Unit {0})
check_pcr_sizes i [] = ok tt
check_pcr_sizes i (p ∷ ps) =
    refuse_if (not (length p == 32)) (wrong_pcr_size i (length p)) >> check_pcr_sizes (i + 1) ps

abbrev pcr_of : Option Bytes → TpmError → Result TpmError Bytes
pcr_of (some p) e = ok p
pcr_of none e = err e

-- The values of the selected PCRs, one after another.
unfoldable pub concat_selected : List Bytes → List ℕ → Result TpmError Bytes
concat_selected banks [] = ok []
concat_selected banks (i ∷ is) = do
  p ← pcr_of (get_elem? banks i) (pcr_not_available i (length banks))
  rest ← concat_selected banks is
  ok (p ++ rest)

abbrev pub zeros_32 : Bytes
zeros_32 = replicate 32 0

module _ ⦃lib : Stdlib⦄ where
  -- VerifyTPMPCRs
  unfoldable pub verify_tpm_pcrs : Bytes → List Bytes → Result TpmError (Unit {0})
  unfolding check_pcr_sizes concat_selected
  verify_tpm_pcrs m banks = do
    refuse_if (length banks == 0) no_pcrs
    check_pcr_sizes 0 banks
    (selected, expected) ← parse_quote_info m
    values ← concat_selected banks selected
    refuse_if (not (bytes_eq (lib.sha256 values) expected)) pcr_digest_mismatch

  -- CheckInitData
  unfoldable pub check_init_data : Bytes → List Bytes → Option Bytes → Result TpmError (Option Bool)
  unfolding has_index
  check_init_data m banks none = ok none
  check_init_data m banks (some expected) = do
    refuse_if (not (length expected == 32)) (wrong_init_data_size (length expected))
    (selected, _) ← parse_quote_info m
    refuse_if (not (has_index selected 8)) pcr8_not_signed
    p ← pcr_of (get_elem? banks 8) pcr8_absent
    refuse_if (not (bytes_eq p (lib.sha256 (zeros_32 ++ expected)))) init_data_mismatch
    ok (some true)
