-- ===== src/Kds/Paths.antt =====
-- The two paths of endorsement certificates.
use attestation_go.Base.{
  ℕ, ◌≡◌, ◌≢◌, ◌⊎◌, ◌≤◌, inl, inr, refl, ap, ◌∙◌, true, Option, none, some, [], ◌∷◌, ◌++◌, Bytes,
  codes, bytes_eq, bytes_eq_iff, length, ◌==◌, ==_iff, All, Bool-cases, arith, Bool, ◌&&◌, false,
}
use attestation_go.Kds.{is_hex, all_hex, cut, product_then, after, matches, endorsement_path}

-- A segment of a path that is not empty.
abbrev IsProduct : Bytes → Type 0
IsProduct s = (s ≢ []) × All (λ b. b ≢ b'/') s

-- A hexadecimal digit of either case.
abbrev IsHexDigit : ℕ → Type 0
IsHexDigit b = ((b'0' ≤ b) × (b ≤ b'9')) ⊎ ((b'a' ≤ b) × (b ≤ b'f')) ⊎ ((b'A' ≤ b) × (b ≤ b'F'))

-- /vcek/v1/<product>/<128 hex digits>
abbrev IsVcekPath : Bytes → Type 0
IsVcekPath path =
    (product : Bytes) × (id : Bytes) × IsProduct product
    × (length id ≡ 128)
    × All IsHexDigit id
    × (path ≡ codes "/vcek/v1/" ++ (product ++ b'/' ∷ id))

-- /vlek/v1/<product>/cert
abbrev IsVlekPath : Bytes → Type 0
IsVlekPath path =
    (product : Bytes) × IsProduct product × (path ≡ codes "/vlek/v1/" ++ (product ++ codes "/cert"))

abbrev pub IsCertificatePath : Bytes → Type 0
IsCertificatePath path = IsVcekPath path ⊎ IsVlekPath path

after_sound : (p s : Bytes) {r : Bytes} → after p s ≡ some r → s ≡ p ++ r
unfolding after
after_sound [] s h = cc
after_sound (p ∷ ps) [] h = cc
after_sound (p ∷ ps) (c ∷ s) {r} h = elim (Bool-cases (p == c)) [
  | inl same ↦
      let tail : s ≡ ps ++ r = after_sound ps s (rw same at h) in cc ((==_iff p c).0 same, tail)
  | inr differs ↦ cc (rw differs at h)
]

IsCut : Bytes → Bytes × Option Bytes → Type 0
IsCut s c = All (λ b. b ≢ b'/') (c.0) × ((r : Bytes) → c.1 ≡ some r → s ≡ c.0 ++ b'/' ∷ r)

cut-IsCut : (s : Bytes) → IsCut s (cut s)
unfolding cut IsCut
cut-IsCut [] = (tt, λ r h. cc)
cut-IsCut (b ∷ s) = elim (Bool-cases (b == 47)) [
  | inl slash ↦ rw slash (tt, λ r h. let e = (==_iff b 47).0 slash in cc)
  | inr other ↦
      let (clean, rest) = cut-IsCut s in
      let apart : b ≢ 47 = λ e. cc ((==_iff b 47).1 e, other) in
      rw other ((apart, clean), λ r h. ap (λ x. b ∷ x) (rest r h))
]

product_then_sound :
    (last : Bytes → Bool) (s : Bytes) (c : Bytes × Option Bytes)
    → IsCut s c
    → product_then last c ≡ true
    → (product : Bytes) × (id : Bytes) × IsProduct product
      × (last id ≡ true)
      × (s ≡ product ++ b'/' ∷ id)
unfolding IsCut
product_then_sound last s ([], rest) h e = cc
product_then_sound last s (b ∷ p, none) h e = cc
product_then_sound last s (b ∷ p, some id) h e = (b ∷ p, id, (λ e. cc, h.0), e, h.1 id refl)

is_hex_sound : (b : ℕ) → is_hex b ≡ true → IsHexDigit b
unfolding is_hex
is_hex_sound b h = ground arith

all_hex_sound : (s : Bytes) → all_hex s ≡ true → All IsHexDigit s
unfolding all_hex
all_hex_sound [] h = tt
all_hex_sound (b ∷ s) h = elim (Bool-cases (is_hex b)) [
  | inl hex ↦ (is_hex_sound b hex, all_hex_sound s (rw hex at h))
  | inr other ↦ cc (rw other at h)
]

pub matches_sound :
    (rest : Bytes → Bool) (o : Option Bytes)
    → matches rest o ≡ true
    → (s : Bytes) × (o ≡ some s) × (rest s ≡ true)
matches_sound rest none h = cc
matches_sound rest (some s) h = (s, refl, h)

-- What stands behind a prefix: a product, and an end that passes a test.
segments_sound :
    (prefix path : Bytes) (last : Bytes → Bool)
    → matches (λ s. product_then last (cut s)) (after prefix path) ≡ true
    → (product : Bytes) × (id : Bytes) × IsProduct product
      × (last id ≡ true)
      × (path ≡ prefix ++ (product ++ b'/' ∷ id))
segments_sound prefix path last h =
    let (s, behind, ends) = matches_sound (λ s. product_then last (cut s)) (after prefix path) h in
    let (product, id, is, good, e) = product_then_sound last s (cut s) (cut-IsCut s) ends in
    (product, id, is, good, after_sound prefix path behind ∙ ap (λ x. prefix ++ x) e)

and_sound : (a b : Bool) → (a && b) ≡ true → (a ≡ true) × (b ≡ true)
and_sound true b h = (refl, h)
and_sound false b h = cc

-- A path that is matched is one of the two.
pub endorsement_path_sound : (path : Bytes) → endorsement_path path ≡ true → IsCertificatePath path
unfolding endorsement_path
endorsement_path_sound path h =
    let last : Bytes → Bool = λ id. length id == 128 && all_hex id in
    elim (Bool-cases (matches (λ s. product_then last (cut s)) (after (codes "/vcek/v1/") path))) [
      | inl vcek ↦
          let (product, id, is, good, e) = segments_sound (codes "/vcek/v1/") path last vcek in
          let (long, hex) = and_sound (length id == 128) (all_hex id) good in
          inl (product, id, is, (==_iff (length id) 128).0 long, all_hex_sound id hex, e)
      | inr other ↦
          let vlek = rw other at h in
          let (product, end, is, good, e) =
            segments_sound (codes "/vlek/v1/") path (λ s. bytes_eq s (codes "cert")) vlek in
          let cert : end ≡ codes "cert" = (bytes_eq_iff end (codes "cert")).0 good in
          inr (product, is, e ∙ ap (λ x. codes "/vlek/v1/" ++ (product ++ b'/' ∷ x)) cert)
    ]
