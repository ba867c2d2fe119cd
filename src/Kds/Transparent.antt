-- ===== src/Kds/Transparent.antt =====
-- The cache answers as the getter behind it.
use attestation_go.Base.{
  ◌≡◌, ◌⊎◌, inl, inr, refl, ap, ◌∙◌, true, Option, none, some, [], ◌∷◌, Bytes, bytes_eq,
  bytes_eq_iff, All, Bool-cases, Result, ok, Result-cases, Stdlib, IsBytes, codes, length, halves,
  sym, arith,
}
use attestation_go.Teetypes.Digest.{hex_encode, hex_decode}
use attestation_go.Teetypes.Digest.RoundTrip.{length-hex_encode, hex_decode-hex_encode}
use attestation_go.Kds.{
  Dir, Publish, create_failed, write_failed, close_failed, rename_failed, renamed, read_file,
  published, Outcome, endorsement_path, fetched, cached_or, cacheable, file_name, get_context,
}
use attestation_go.Kds.Paths.{IsCertificatePath, matches_sound, endorsement_path_sound}

module _ ⦃lib : Stdlib⦄ (url_path : Bytes → Option Bytes) (next : Bytes → Result Bytes Bytes) where
  -- A URL that is parsed to the path of an endorsement certificate.
  abbrev pub IsCertificate : Bytes → Type 0
  IsCertificate url = (path : Bytes) × (url_path url ≡ some path) × IsCertificatePath path

  -- A file is the answer for the URL of an endorsement certificate, which has the file's name.
  abbrev pub IsAnswer : Bytes × Bytes → Type 0
  IsAnswer f =
      (url : Bytes) × IsCertificate url
      × (file_name url_path next url ≡ f.0)
      × (next url ≡ ok (f.1))

  abbrev pub IsHonest : Dir → Type 0
  IsHonest dir = All IsAnswer dir

  -- The answer for a URL is that of the getter for it, or for one with the same file name.
  abbrev IsNamed : Bytes → Result Bytes Bytes → Type 0
  IsNamed url r =
      (r ≡ next url) ⊎ ((b : Bytes) × (r ≡ ok b) × IsAnswer (file_name url_path next url, b))

  -- The answer for a URL is that of the getter for it, or for one of an endorsement certificate that has
  -- the same SHA-256.
  abbrev pub IsServed : Bytes → Result Bytes Bytes → Type 0
  IsServed url r =
      (r ≡ next url)
      ⊎ ((other : Bytes) × IsCertificate other
          × (lib.sha256 other ≡ lib.sha256 url)
          × (r ≡ next other))

  cacheable_sound : (url : Bytes) → cacheable url_path next url ≡ true → IsCertificate url
  unfolding cacheable
  cacheable_sound url h =
      let (path, parsed, shape) = matches_sound endorsement_path (url_path url) h in
      (path, parsed, endorsement_path_sound path shape)

  hex_encode-inj : (a b : Bytes) → IsBytes a → IsBytes b → hex_encode a ≡ hex_encode b → a ≡ b
  hex_encode-inj a b ha hb e =
      let same : hex_decode (hex_encode a) ≡ hex_decode (hex_encode b) = ap hex_decode e in
      let both : ◌≡◌ {A = Option Bytes} (some a) (some b) =
        sym (hex_decode-hex_encode a ha) ∙ same ∙ hex_decode-hex_encode b hb in
      cc (both)

  same_name :
      (url other : Bytes)
      → ((m : Bytes) → IsBytes (lib.sha256 m))
      → file_name url_path next other ≡ file_name url_path next url
      → lib.sha256 other ≡ lib.sha256 url
  unfolding file_name
  same_name url other bytes e =
      let x = lib.sha256 other in
      let y = lib.sha256 url in
      let width : length (hex_encode x) ≡ length (hex_encode y) = omega (
        arith,
        length-hex_encode x,
        length-hex_encode y,
        lib.length-sha256 other,
        lib.length-sha256 url,
      ) in
      hex_encode-inj x y (bytes other) (bytes url)
        (halves (hex_encode x) (hex_encode y) (codes ".der") (codes ".der") width e).0

  named-IsServed :
      (url : Bytes) (r : Result Bytes Bytes)
      → ((m : Bytes) → IsBytes (lib.sha256 m))
      → IsNamed url r
      → IsServed url r
  named-IsServed url r bytes (inl e) = inl e
  named-IsServed url r bytes (inr (b, e, (other, may, named, answer))) =
      inr (other, may, same_name url other bytes named, e ∙ sym answer)

  read_file-IsAnswer :
      (dir : Dir) (name b : Bytes) → IsHonest dir → read_file dir name ≡ some b → IsAnswer (name, b)
  unfolding read_file
  read_file-IsAnswer [] name b honest h = cc h
  read_file-IsAnswer ((n, c) ∷ dir) name b honest h = elim (Bool-cases (bytes_eq n name)) [
    | inl same ↦
        let there : ◌≡◌ {A = Option Bytes} (some c) (some b) = rw same at h in
        let e : c ≡ b = cc (there) in
        let named : n ≡ name = (bytes_eq_iff n name).0 same in
        let (url, may, name_of, answer) = honest.0 in (url, may, name_of ∙ named, answer ∙ ap ok e)
    | inr other ↦
        let later : read_file dir name ≡ some b = rw other at h in
        read_file-IsAnswer dir name b (honest.1) later
  ]

  published-IsHonest :
      (fate : Publish) (name b : Bytes) (dir : Dir)
      → IsAnswer (name, b)
      → IsHonest dir
      → IsHonest (published fate name b dir)
  published-IsHonest renamed name b dir a h = (a, h)
  published-IsHonest create_failed name b dir a h = h
  published-IsHonest write_failed name b dir a h = h
  published-IsHonest close_failed name b dir a h = h
  published-IsHonest rename_failed name b dir a h = h

  IsGood : Bytes → Outcome → Type 0
  IsGood url out = IsNamed url (out.0) × IsHonest (out.1)

  fetched-IsGood :
      (fate : Publish) (dir : Dir) (url : Bytes)
      → IsCertificate url
      → IsHonest dir
      → IsGood url (fetched (next url) fate (file_name url_path next url) dir)
  unfolding IsGood
  fetched-IsGood fate dir url may h = elim (Result-cases (next url)) [
    | inl (b, answer) ↦ rw answer (
      inl refl,
      published-IsHonest fate (file_name url_path next url) b dir (url, may, refl, answer) h,
    )
    | inr (e, failed) ↦ rw failed (inl refl, h)
  ]

  cached_or-IsGood :
      (o : Option Bytes) (other : Outcome) (dir : Dir) (url : Bytes)
      → IsHonest dir
      → IsGood url other
      → ((b : Bytes) → o ≡ some b → IsAnswer (file_name url_path next url, b))
      → IsGood url (cached_or o other dir)
  unfolding IsGood
  cached_or-IsGood none other dir url h good read = good
  cached_or-IsGood (some []) other dir url h good read = good
  cached_or-IsGood (some (c ∷ b)) other dir url h good read =
      (inr (c ∷ b, refl, read (c ∷ b) refl), h)

  -- Where SHA-256 gives bytes: however publishing ends, a request answers as the getter behind the cache
  -- does for the URL, or for one of an endorsement certificate that has the same SHA-256; a URL whose path
  -- is not /vcek/v1/<product>/<128 hex digits> or /vlek/v1/<product>/cert is answered by the getter and
  -- leaves the directory; and a directory that holds only answers of the getter for such URLs, each under
  -- the name of its URL, stays so.
  pub get_context-IsHonest :
      (fate : Publish) (dir : Dir) (url : Bytes)
      → ((m : Bytes) → IsBytes (lib.sha256 m))
      → IsHonest dir
      → IsServed url ((get_context url_path next fate dir url).0)
        × IsHonest ((get_context url_path next fate dir url).1)
        × (IsCertificate url ⊎ (get_context url_path next fate dir url ≡ (next url, dir)))
  unfolding get_context IsGood
  get_context-IsHonest fate dir url bytes h = elim (Bool-cases (cacheable url_path next url)) [
    | inl may ↦
        let name = file_name url_path next url in
        let good : IsGood url (get_context url_path next fate dir url) = rw may (
          cached_or-IsGood (read_file dir name) (fetched (next url) fate name dir) dir url h
            (fetched-IsGood fate dir url (cacheable_sound url may) h)
            (λ b there. read_file-IsAnswer dir name b h there)) in
        (named-IsServed url _ bytes good.0, good.1, inl (cacheable_sound url may))
    | inr not_cached ↦ rw not_cached (inl refl, h, inr refl)
  ]
