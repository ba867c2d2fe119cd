-- ===== src/Armtls/Keys/Width.antt =====
-- The layout of the report data of a key.
use attestation_go.Base.{
  ℕ, zero, suc, ◌+◌, ◌≡◌, refl, ap, arith, [], ◌∷◌, ◌++◌, Bytes, length, take, drop, replicate,
  length-append, take-append, drop-append, Result, ok, bind-eq-ok, Stdlib,
}
use attestation_go.Armtls.Keys.{Curve, CertKey, marshal_public_key, padded, report_data_for_key}

take-past : (xs ys : Bytes) (k n : ℕ) → k ≡ length xs + n → take k (xs ++ ys) ≡ xs ++ take n ys
take-past [] ys k n h = let e : k ≡ n = omega arith in rw e refl
take-past (x ∷ xs) ys zero n h = absurd (omega arith)
take-past (x ∷ xs) ys (suc k) n h = ap (λ s. x ∷ s) (take-past xs ys k n (omega arith))

take-exact : (n : ℕ) (xs ys : Bytes) → length xs ≡ n → take n (xs ++ ys) ≡ xs
take-exact n xs ys h = rw (← h) (take-append xs ys)

drop-exact : (n : ℕ) (xs ys : Bytes) → length xs ≡ n → drop n (xs ++ ys) ≡ ys
drop-exact n xs ys h = rw (← h) (drop-append xs ys)

padded_lem :
    (marshal_pkix : Curve → Bytes → Result Bytes Bytes) (sum : Bytes)
    → length sum ≡ 48
    → padded marshal_pkix sum ≡ sum ++ replicate 16 0
padded_lem m sum h = take-past sum (replicate 64 0) 64 16 (omega (arith, h))

module _ ⦃lib : Stdlib⦄ (marshal_pkix : Curve → Bytes → Result Bytes Bytes) where
  -- The report data of a key that can be marshalled is 64 bytes: the SHA-384 of the marshalled key and the
  -- nonce, 48 bytes, and 16 zero bytes behind it.
  pub report_data_for_key_width :
      (key : CertKey) (nonce : Bytes) {d : Bytes}
      → report_data_for_key marshal_pkix key nonce ≡ ok d
      → (k : Bytes) × (marshal_public_key marshal_pkix key ≡ ok k)
        × (take 48 d ≡ lib.sha384 (k ++ nonce))
        × (length (take 48 d) ≡ 48)
        × (drop 48 d ≡ replicate 16 0)
        × (length d ≡ 64)
  unfolding report_data_for_key
  report_data_for_key_width key nonce {d} h =
      let (k, marshalled, h1) = bind-eq-ok (marshal_public_key marshal_pkix key) _ h in
      let sum = lib.sha384 (k ++ nonce) in
      let w = lib.length-sha384 (k ++ nonce) in
      let e : padded marshal_pkix sum ≡ d = cc in
      rw (← e, padded_lem marshal_pkix sum w)
        (
          k,
          marshalled,
          take-exact 48 sum (replicate 16 0) w,
          rw (take-exact 48 sum (replicate 16 0) w) w,
          drop-exact 48 sum (replicate 16 0) w,
          omega (arith, length-append sum (replicate 16 0), w),
        )
