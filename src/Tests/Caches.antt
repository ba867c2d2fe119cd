-- ===== src/Tests/Caches.antt =====
-- The certificate cache over a getter that answers every URL.
use attestation_go.Base.{
  ◌≡◌, ◌⊎◌, refl, true, false, Option, some, [], ◌∷◌, ◌++◌, Bytes, codes, replicate, Result, ok,
  IsBytes, arith, ◌≢◌, inr, All,
}
use attestation_go.Kds.{Dir, create_failed, endorsement_path, cacheable, file_name, get_context}
use attestation_go.Kds.Transparent.{IsCertificate, IsHonest, IsServed, get_context-IsHonest}
use attestation_go.Tests.{toy}

abbrev whole : Bytes → Option Bytes
whole url = some url

abbrev answers : Bytes → Result Bytes Bytes
answers url = ok (7 ∷ [])

abbrev vlek : Bytes
vlek = codes "/vlek/v1/Milan/cert"

may_cache : cacheable ⦃lib = toy⦄ whole answers vlek ≡ true
unfolding cacheable endorsement_path
may_cache = refl

vcek_path : endorsement_path (codes "/vcek/v1/Milan/" ++ replicate 128 b'a') ≡ true
unfolding endorsement_path
vcek_path = refl

short_chip_id : endorsement_path (codes "/vcek/v1/Milan/" ++ replicate 127 b'a') ≡ false
unfolding endorsement_path
short_chip_id = refl

never_crl : endorsement_path (codes "/vcek/v1/Milan/crl") ≡ false
unfolding endorsement_path
never_crl = refl

abbrev kept : Dir
kept = (file_name ⦃lib = toy⦄ whole answers vlek, 7 ∷ []) ∷ []

vlek-IsCertificate : IsCertificate ⦃lib = toy⦄ whole answers vlek
vlek-IsCertificate =
    let apart : All (λ b. b ≢ b'/') (codes "Milan") = ground arith in
    (vlek, refl, inr (codes "Milan", (λ e. cc, apart), refl))

kept-IsHonest : IsHonest ⦃lib = toy⦄ whole answers kept
kept-IsHonest = ((vlek, vlek-IsCertificate, refl, refl), tt)

toy_bytes : (m : Bytes) → IsBytes (toy.sha256 m)
toy_bytes m = ground arith

get_context-IsHonest_example :
    IsServed ⦃lib = toy⦄ whole answers vlek
      ((get_context ⦃lib = toy⦄ whole answers create_failed kept vlek).0)
    × IsHonest ⦃lib = toy⦄ whole answers
        ((get_context ⦃lib = toy⦄ whole answers create_failed kept vlek).1)
    × (IsCertificate ⦃lib = toy⦄ whole answers vlek
        ⊎ (get_context ⦃lib = toy⦄ whole answers create_failed kept vlek ≡ (answers vlek, kept)))
get_context-IsHonest_example =
    get_context-IsHonest ⦃lib = toy⦄ whole answers create_failed kept vlek toy_bytes kept-IsHonest
