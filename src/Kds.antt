-- ===== src/Kds.antt =====
-- attestation/snp/kdscache.go: the cache of AMD's endorsement certificates.
mod Paths
pub mod Transparent
use attestation_go.Base.{
  ℕ, Bool, true, false, not, ◌&&◌, ◌||◌, Option, none, some, List, [], ◌∷◌, ◌++◌, Bytes, codes,
  bytes_eq, length, leb, ltb, ◌==◌, if◌then◌else◌, Result, ok, err, Stdlib,
}
use attestation_go.Teetypes.Digest.{hex_encode}

-- The directory: the files under their names, the last written before an earlier one.
abbrev pub Dir : Type 0
Dir = List (Bytes × Bytes)

-- How publishing a file ends: the call that fails, if any does.
pub data Publish : Type 0 where
  create_failed write_failed close_failed rename_failed renamed : Publish

unfoldable is_hex : ℕ → Bool
is_hex b = (leb 48 b && leb b 57) || (leb 97 b && leb b 102) || (leb 65 b && leb b 70)

unfoldable all_hex : Bytes → Bool
unfolding is_hex
all_hex [] = true
all_hex (b ∷ s) = is_hex b && all_hex s

-- The text before the first slash, and the text behind it.
unfoldable cut : Bytes → Bytes × Option Bytes
cut [] = ([], none)
cut (b ∷ s) = let rest = cut s in if b == 47 then ([], some s) else (b ∷ rest.0, rest.1)

-- `[^/]+/` and then what the last segment has to be
abbrev product_then : (Bytes → Bool) → Bytes × Option Bytes → Bool
product_then last ([], rest) = false
product_then last (b ∷ s, none) = false
product_then last (b ∷ s, some rest) = last rest

unfoldable after : Bytes → Bytes → Option Bytes
after [] s = some s
after (p ∷ prefix) [] = none
after (p ∷ prefix) (b ∷ s) = let rest = after prefix s in if p == b then rest else none

abbrev matches : (Bytes → Bool) → Option Bytes → Bool
matches rest none = false
matches rest (some s) = rest s

-- endorsementPath
unfoldable pub endorsement_path : Bytes → Bool
unfolding all_hex cut after bytes_eq
endorsement_path path =
    matches (λ s. product_then (λ id. length id == 128 && all_hex id) (cut s))
      (after (codes "/vcek/v1/") path)
    || matches (λ s. product_then (λ last. bytes_eq last (codes "cert")) (cut s))
        (after (codes "/vlek/v1/") path)

unfoldable pub read_file : Dir → Bytes → Option Bytes
unfolding bytes_eq
read_file [] name = none
read_file ((n, b) ∷ dir) name =
    let rest = read_file dir name in if bytes_eq n name then some b else rest

abbrev pub published : Publish → Bytes → Bytes → Dir → Dir
published renamed name b dir = (name, b) ∷ dir
published _ name b dir = dir

abbrev pub Outcome : Type 0
Outcome = Result Bytes Bytes × Dir

-- A fetched certificate is published; an error of it is passed on.
abbrev pub fetched : Result Bytes Bytes → Publish → Bytes → Dir → Outcome
fetched (err e) fate name dir = (err e, dir)
fetched (ok b) fate name dir = (ok b, published fate name b dir)

-- A file that is there and not empty is the result.
abbrev pub cached_or : Option Bytes → Outcome → Dir → Outcome
cached_or none other dir = other
cached_or (some []) other dir = other
cached_or (some (c ∷ b)) other dir = (ok (c ∷ b), dir)

-- url.Parse, which gives the path of a URL, and the getter behind the cache.
module _ ⦃lib : Stdlib⦄ (url_path : Bytes → Option Bytes) (next : Bytes → Result Bytes Bytes) where
  unfoldable pub cacheable : Bytes → Bool
  unfolding endorsement_path
  cacheable url = matches endorsement_path (url_path url)

  unfoldable pub file_name : Bytes → Bytes
  unfolding hex_encode
  file_name url = hex_encode (lib.sha256 url) ++ codes ".der"

  -- cachingGetter.GetContext
  unfoldable pub get_context : Publish → Dir → Bytes → Outcome
  unfolding cacheable file_name read_file
  get_context fate dir url =
      if cacheable url
      then (cached_or (read_file dir (file_name url)) (fetched (next url) fate (file_name url) dir)
          dir)
      else (next url, dir)
