-- ===== src/Armtls/Keys.antt =====
-- armtls/extension.go: the report data of a key, and the key and the extension of a certificate.
pub mod Width
use attestation_go.Base.{
  ℕ, ◌≡◌, refl, ap, arith, Bool, true, false, ◌&&◌, ◌==◌, List, [], ◌∷◌, ◌++◌, Bytes, bytes_eq,
  length, take, drop, replicate, if◌then◌else◌, length-append, length-replicate, length-take,
  take-append, drop-append, Result, ok, err, ◌>>=◌, ◌>>◌, refuse_if, map_err, bind-eq-ok,
  map_err-eq-ok, Stdlib,
}
use attestation_go.Armtls.Extension.{
  ArmtlsError, no_oid, no_attestation, bad_key, unsupported_key, Attestation, Extension,
  ExtensionCodec, unmarshal_extension,
}

pub data Curve : Type 0 where
  p256 p384 other_curve : Curve

-- A public key of crypto: the point of an ECDSA key and the bytes of an ed25519 key are kept.
pub data CertKey : Type 0 where
  ecdsa : Curve → Bytes → CertKey
  ed25519 : Bytes → CertKey
  other_key : CertKey

pub record Certificate : Type 0 where
  pub extensions : List Extension
  pub public_key : CertKey

-- x509.MarshalPKIXPublicKey of an ECDSA key.
module _ (marshal_pkix : Curve → Bytes → Result Bytes Bytes) where
  unfoldable pub marshal_public_key : CertKey → Result ArmtlsError Bytes
  marshal_public_key (ecdsa curve point) = map_err bad_key (marshal_pkix curve point)
  marshal_public_key (ed25519 k) = ok k
  marshal_public_key other_key = err unsupported_key

  -- copy into the 64 bytes of the field
  abbrev pub padded : Bytes → Bytes
  padded sum = take 64 (sum ++ replicate 64 0)

  -- ReportDataForKey; a nonce that is nil is empty.
  unfoldable pub report_data_for_key : ⦃lib : Stdlib⦄ → CertKey → Bytes → Result ArmtlsError Bytes
  unfolding marshal_public_key
  report_data_for_key ⦃lib⦄ pub_key nonce = do
    key ← marshal_public_key pub_key
    ok (padded (lib.sha384 (key ++ nonce)))

supported : CertKey → Result ArmtlsError CertKey
supported (ecdsa other_curve point) = err unsupported_key
supported (ecdsa p256 point) = ok (ecdsa p256 point)
supported (ecdsa p384 point) = ok (ecdsa p384 point)
supported (ed25519 k) = ok (ed25519 k)
supported other_key = err unsupported_key

-- publicKeyFromCert
unfoldable pub public_key_from_cert : Certificate → Result ArmtlsError CertKey
unfolding supported
public_key_from_cert c = supported c.public_key

unfoldable pub first_extension :
    ⦃lib : Stdlib⦄ → ExtensionCodec → List ℕ → List Extension → Result ArmtlsError Attestation
first_extension codec oid [] = err no_attestation
first_extension codec oid (ext ∷ exts) =
    if bytes_eq ext.id oid
    then unmarshal_extension codec ext.value
    else first_extension codec oid exts

-- ExtractAttestation
unfoldable pub extract_attestation :
    ⦃lib : Stdlib⦄ → ExtensionCodec → Certificate → List ℕ → Result ArmtlsError Attestation
unfolding first_extension
extract_attestation codec cert oid =
    refuse_if (length oid == 0) no_oid >> first_extension codec oid cert.extensions
