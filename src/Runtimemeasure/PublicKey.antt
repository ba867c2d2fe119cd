-- ===== src/Runtimemeasure/PublicKey.antt =====
-- runtimemeasure/publickey.go: ParsePublicKeyPEM, over encoding/pem and crypto/x509.
use attestation_go.Base.{
  not, ◌||◌, Option, none, some, List, Bytes, codes, bytes_eq, length, ◌==◌, Result, ok, err, ◌>>=◌,
  ◌>>◌, refuse_if, map_err,
}
use attestation_go.Teetypes.Text.{trim_space}

pub record PemBlock : Type 0 where
  pub kind : Bytes
  pub headers : List (Bytes × Bytes)
  pub body : Bytes

-- A parsed key; a curve other than P-256, or another algorithm, is only told apart.
pub data PublicKey : Type 0 where
  ecdsa_p256 : Bytes → PublicKey
  other_key : PublicKey

-- pem.Decode, with the rest of the text, and x509.ParsePKIXPublicKey, with its error.
pub record KeyCodec : Type 0 where
  pub pem_decode : Bytes → Option PemBlock × Bytes
  pub parse_pkix : Bytes → Result Bytes PublicKey

pub data KeyError : Type 0 where
  not_one_key not_p256 : KeyError
  bad_key : Bytes → KeyError

abbrev one_block : Option PemBlock → Bytes → Result KeyError PemBlock
one_block none rest = err not_one_key
one_block (some b) rest =
    refuse_if
      (not (bytes_eq b.kind (codes "PUBLIC KEY"))
        || not (length b.headers == 0)
        || not (length (trim_space rest) == 0))
      not_one_key
    >> ok b

abbrev p256_only : PublicKey → Result KeyError Bytes
p256_only (ecdsa_p256 point) = ok point
p256_only other_key = err not_p256

-- ParsePublicKeyPEM
unfoldable pub parse_public_key_pem : KeyCodec → Bytes → Result KeyError Bytes
parse_public_key_pem codec key = do
  block ← one_block (codec.pem_decode key).0 (codec.pem_decode key).1
  pub_key ← map_err bad_key (codec.parse_pkix block.body)
  p256_only pub_key
