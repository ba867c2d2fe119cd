-- ===== src/Runtimemeasure/Fold.antt =====
-- The measurement values of runtimemeasure/runtimemeasure.go, over the SHA-2 functions, and the
-- register of register.go.
use attestation_go.Base.{ℕ, ◌≡◌, refl, List, [], ◌∷◌, ◌++◌, Bytes, length, replicate, Stdlib}

-- `Size`, and the value of the register at boot, 48 zero bytes.
abbrev pub size : ℕ
size = 48

abbrev pub zero_register : Bytes
zero_register = replicate size 0

abbrev pub host_data_size : ℕ
host_data_size = 32

module _ ⦃lib : Stdlib⦄ where
  -- Event
  unfoldable pub event : Bytes → Bytes
  event canonical = lib.sha384 canonical

  -- Extend: the hash is written the register first, then the event.
  unfoldable pub extend : Bytes → Bytes → Bytes
  extend reg ev = lib.sha384 (reg ++ ev)

  -- FromDigestsSeeded
  unfoldable pub from_digests_seeded : Bytes → List Bytes → Bytes
  from_digests_seeded seed [] = seed
  from_digests_seeded seed (d ∷ ds) = from_digests_seeded (extend seed (event d)) ds

  unfoldable pub from_digests : List Bytes → Bytes
  unfolding from_digests_seeded
  from_digests = from_digests_seeded zero_register

  -- Seed
  unfoldable pub seed : Bytes → Bytes
  unfolding extend
  seed anchor = extend zero_register (lib.sha384 anchor)

  -- HostData
  unfoldable pub host_data : Bytes → Bytes
  host_data anchor = lib.sha256 anchor

  pub from_digests_seeded-append :
      (s : Bytes) (ds es : List Bytes)
      → from_digests_seeded s (ds ++ es) ≡ from_digests_seeded (from_digests_seeded s ds) es
  unfolding from_digests_seeded
  from_digests_seeded-append s [] es = refl
  from_digests_seeded-append s (d ∷ ds) es = from_digests_seeded-append (extend s (event d)) ds es

  pub length-from_digests_seeded :
      (s : Bytes) (ds : List Bytes) → length s ≡ 48 → length (from_digests_seeded s ds) ≡ 48
  unfolding from_digests_seeded extend
  length-from_digests_seeded s [] h = h
  length-from_digests_seeded s (d ∷ ds) h =
      length-from_digests_seeded (extend s (event d)) ds (lib.length-sha384 (s ++ event d))
