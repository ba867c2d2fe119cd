-- ===== src/Runtimemeasure/Canonical/Shape.antt =====
-- Which references CanonicalDigest accepts, and what it makes of them.
use attestation_go.Base.{
  ℕ, ◌≡◌, ◌≢◌, ◌↔◌, ◌⊎◌, inl, inr, refl, sym, ◌∙◌, true, not, Option, none, some, [], ◌∷◌, ◌++◌,
  arith, Bytes, length, ◌==◌, ==_iff, ok, ◌>>=◌, refuse_if-eq-ok, bind-eq-ok, Bool-cases,
  Option-cases,
}
use attestation_go.Teetypes.Digest.{all_lower_hex, is_lower_hex}
use attestation_go.Runtimemeasure.Canonical.{
  wrong_hex_length, not_hex, last_at_onto, split_last_at, cut_prefix, digest_prefix, pinned_part,
  checked_hex, canonical_digest,
}

-- "sha256:" and 64 lowercase hex digits.
pub record IsCanonical (d : Bytes) : Type 0 where
  pub hex : Bytes
  pub is_prefixed : d ≡ digest_prefix ++ hex
  pub length_hex : length hex ≡ 64
  pub lower : all_lower_hex hex ≡ true

last_at_cons :
    (c : ℕ) (s : Bytes) (o : Option (Bytes × Bytes)) {name digest : Bytes}
    → last_at_onto c s o ≡ some (name, digest)
    → ((n d : Bytes) → o ≡ some (n, d) → s ≡ n ++ b'@' ∷ d)
    → c ∷ s ≡ name ++ b'@' ∷ digest
last_at_cons c s none h ih = ground arith
last_at_cons c s (some (n, d)) h ih = let e = ih n d refl in rw e (cc)

split_last_at_sound :
    (s : Bytes) {name digest : Bytes}
    → split_last_at s ≡ some (name, digest)
    → s ≡ name ++ b'@' ∷ digest
unfolding split_last_at
split_last_at_sound [] h = cc
split_last_at_sound (c ∷ s) h =
    last_at_cons c s (split_last_at s) h (λ n d e. split_last_at_sound s e)

split_last_at-append :
    (name digest : Bytes)
    → split_last_at digest ≡ none
    → split_last_at (name ++ b'@' ∷ digest) ≡ some (name, digest)
unfolding split_last_at
split_last_at-append [] digest h = rw h
split_last_at-append (c ∷ name) digest h = rw (split_last_at-append name digest h)

split_last_at-hex : (hex : Bytes) → all_lower_hex hex ≡ true → split_last_at hex ≡ none
unfolding split_last_at all_lower_hex is_lower_hex
split_last_at-hex [] h = refl
split_last_at-hex (c ∷ s) h = ground (arith, split_last_at-hex s)

cut_prefix_sound : (p s : Bytes) {r : Bytes} → cut_prefix p s ≡ some r → s ≡ p ++ r
unfolding cut_prefix
cut_prefix_sound [] s h = cc
cut_prefix_sound (p ∷ ps) [] h = cc
cut_prefix_sound (p ∷ ps) (c ∷ s) {r} h = elim (Bool-cases (p == c)) [
  | inl same ↦
      let tail : s ≡ ps ++ r = cut_prefix_sound ps s (rw same at h) in
      cc ((==_iff p c).0 same, tail)
  | inr differs ↦ cc (rw differs at h)
]

cut_prefix-append : (p s : Bytes) → cut_prefix p (p ++ s) ≡ some s
unfolding cut_prefix
cut_prefix-append [] s = refl
cut_prefix-append (p ∷ ps) s = ground (arith, cut_prefix-append ps s)

-- The accepted references: a canonical digest, or one behind a name that is not empty.
pub record RefersTo (ref d : Bytes) : Type 0 where
  pub canonical : IsCanonical d
  pub spelled : (ref ≡ d) ⊎ ((name : Bytes) × (name ≢ []) × (ref ≡ name ++ b'@' ∷ d))

checked_hex-eq-ok :
    (digest : Bytes) {d : Bytes}
    → checked_hex (cut_prefix digest_prefix digest) ≡ ok d
    → IsCanonical d × (digest ≡ d)
checked_hex-eq-ok digest {d} h = elim (Option-cases (cut_prefix digest_prefix digest)) [
  | inl e ↦ cc (rw e at h)
  | inr (hex, e) ↦
      let h1 : checked_hex (some hex) ≡ ok d = rw e at h in
      let (l, h2) = refuse_if-eq-ok (not (length hex == 64)) (wrong_hex_length (length hex)) h1 in
      let (x, h3) = refuse_if-eq-ok (not (all_lower_hex hex)) not_hex h2 in
      let same : digest_prefix ++ hex ≡ d = ground arith in
      (
        record {
          hex = hex;
          is_prefixed = sym same;
          length_hex = ground arith;
          lower = ground arith;
        },
        cut_prefix_sound digest_prefix digest e ∙ same,
      )
]

pinned_part-eq-ok :
    (ref digest : Bytes) (o : Option (Bytes × Bytes))
    → split_last_at ref ≡ o
    → pinned_part ref o ≡ ok digest
    → (ref ≡ digest) ⊎ ((name : Bytes) × (name ≢ []) × (ref ≡ name ++ b'@' ∷ digest))
pinned_part-eq-ok ref digest none e h = inl cc
pinned_part-eq-ok ref digest (some ([], d)) e h = cc
pinned_part-eq-ok ref digest (some (c ∷ name, d)) e h =
    let same : d ≡ digest = cc in inr (c ∷ name, (λ x. cc), rw (← same) (split_last_at_sound ref e))

pub canonical_digest_sound :
    (ref : Bytes) {d : Bytes} → canonical_digest ref ≡ ok d → RefersTo ref d
unfolding canonical_digest
canonical_digest_sound ref {d} h =
    let (digest, p, q) = bind-eq-ok (pinned_part ref (split_last_at ref)) _ h in
    let (shape, same) = checked_hex-eq-ok digest q in
    record {
      canonical = shape;
      spelled = rw (← same) (pinned_part-eq-ok ref digest (split_last_at ref) refl p);
    }

split_last_at-canonical : {d : Bytes} → IsCanonical d → split_last_at d ≡ none
unfolding split_last_at
split_last_at-canonical c = rw (c.is_prefixed, split_last_at-hex c.hex c.lower)

checked_hex-canonical :
    {d : Bytes} → IsCanonical d → checked_hex (cut_prefix digest_prefix d) ≡ ok d
checked_hex-canonical {d} c =
    rw (c.is_prefixed, cut_prefix-append digest_prefix c.hex, c.length_hex, c.lower)

behind_name :
    (ref : Bytes) {d : Bytes} (name : Bytes)
    → name ≢ []
    → checked_hex (cut_prefix digest_prefix d) ≡ ok d
    → (pinned_part ref (some (name, d)) >>= λ digest. checked_hex (cut_prefix digest_prefix digest))
      ≡ ok d
behind_name ref [] named h = absurd (named refl)
behind_name ref (c ∷ name) named h = h

pub canonical_digest_complete :
    (ref : Bytes) {d : Bytes} → RefersTo ref d → canonical_digest ref ≡ ok d
unfolding canonical_digest
canonical_digest_complete ref {d} p = elim p.spelled [
  | inl e ↦ rw (e, split_last_at-canonical p.canonical) (checked_hex-canonical p.canonical)
  | inr (name, named, e) ↦
      rw (e, split_last_at-append name d (split_last_at-canonical p.canonical))
        (behind_name ref name named (checked_hex-canonical p.canonical))
]

-- A reference is accepted exactly if it is a canonical digest or such a digest behind a name and
-- an '@', and what comes back is that digest.
pub canonical_digest_iff : (ref d : Bytes) → (canonical_digest ref ≡ ok d) ↔ RefersTo ref d
canonical_digest_iff ref d = (canonical_digest_sound ref, canonical_digest_complete ref)

pub canonical_digest_self : {d : Bytes} → IsCanonical d → canonical_digest d ≡ ok d
canonical_digest_self {d} c =
    canonical_digest_complete d (record { canonical = c; spelled = inl refl })

pub length-IsCanonical : {d : Bytes} → IsCanonical d → length d ≡ 71
length-IsCanonical c = rw c.is_prefixed (omega (arith, c.length_hex))
