-- ===== src/Launchmeasure/Hashes/Layout.antt =====
-- Where the page has which bytes.
use attestation_go.Base.{
  ℕ, zero, suc, ◌+◌, ◌-◌, ◌*◌, ◌≤◌, ◌≡◌, refl, ap, ◌∙◌, arith, List, [], ◌∷◌, ◌++◌, Bytes, length,
  take, drop, replicate, All, take-append, length-append, length-replicate, append_assoc,
  append-nil,
}
use attestation_go.Launchmeasure.Hashes.{
  KernelHashes, hash_table_padded, hash_table_size, page_size, le16, put, put_entries,
  guid_hash_table, entries_of, table, page,
}

drop-replicate : (n m b : ℕ) → drop n (replicate (n + m) b) ≡ replicate m b
drop-replicate zero m b = let e : 0 + m ≡ m = omega arith in ap (λ k. replicate k b) e
drop-replicate (suc n) m b =
    let e : suc n + m ≡ suc (n + m) = omega arith in rw e (drop-replicate n m b)

take-long : (n : ℕ) (s : Bytes) → length s ≤ n → take n s ≡ s
take-long zero [] h = refl
take-long (suc n) [] h = refl
take-long zero (b ∷ s) h = absurd (omega (arith, h))
take-long (suc n) (b ∷ s) h = ap (λ t. b ∷ t) (take-long n s (omega (arith, h)))

drop-past : (a : Bytes) (n : ℕ) (rest : Bytes) → drop (length a + n) (a ++ rest) ≡ drop n rest
drop-past [] n rest = let e : 0 + n ≡ n = omega arith in ap (λ k. drop k rest) e
drop-past (b ∷ a) n rest =
    let e : length (b ∷ a) + n ≡ suc (length a + n) = omega arith in rw e (drop-past a n rest)

-- A copy onto zeros.
put-zeros :
    (a src : Bytes) (at n m : ℕ)
    → length a ≡ at
    → n ≡ length src + m
    → put at src (a ++ replicate n 0) ≡ (a ++ src) ++ replicate m 0
unfolding put
put-zeros a src at n m w e =
    let room : length (a ++ replicate n 0) - length a ≡ n =
      omega (arith, length-append a (replicate n 0), length-replicate {A = ℕ} n 0) in
    let whole : take n src ≡ src = take-long n src (omega (arith, e)) in
    let behind : drop (length a + length src) (a ++ replicate n 0) ≡ replicate m 0 =
      drop-past a (length src) (replicate n 0) ∙ rw e (drop-replicate (length src) m 0) in
    rw (← w, take-append a (replicate n 0), room, whole, behind) refl

replicate_plus : (n m b : ℕ) → replicate (n + m) b ≡ replicate n b ++ replicate m b
replicate_plus zero m b = let e : 0 + m ≡ m = omega arith in ap (λ k. replicate k b) e
replicate_plus (suc n) m b =
    let e : suc n + m ≡ suc (n + m) = omega arith in rw (e, replicate_plus n m b) refl

-- A copy into a page of zeros.
placed :
    (t : Bytes) (offset size m : ℕ)
    → size ≡ offset + (length t + m)
    → put offset t (replicate size 0) ≡ (replicate offset 0 ++ t) ++ replicate m 0
placed t offset size m e =
    rw (e, replicate_plus offset (length t + m) 0)
      (put-zeros (replicate offset 0) t offset (length t + m) m (length-replicate {A = ℕ} offset 0)
        refl)

padded :
    (p t : Bytes) (m : ℕ)
    → (p ++ (t ++ replicate 8 0)) ++ replicate m 0 ≡ (p ++ t) ++ replicate (8 + m) 0
padded p t m = rw (replicate_plus 8 m 0) (simp append_assoc refl)

-- Each entry: its GUID, its size and its hash.
unfoldable pub encode_entries : List (Bytes × Bytes) → Bytes
encode_entries [] = []
encode_entries ((guid, hash) ∷ es) = ((guid ++ le16 50) ++ hash) ++ encode_entries es

abbrev pub IsEntry : Bytes × Bytes → Type 0
IsEntry e = (length e.0 ≡ 16) × (length e.1 ≡ 32)

pub encoded-width :
    (es : List (Bytes × Bytes)) → All IsEntry es → length (encode_entries es) ≡ 50 * length es
unfolding encode_entries
encoded-width [] h = omega arith
encoded-width ((guid, hash) ∷ es) h =
    let e : 50 * length ((guid, hash) ∷ es) ≡ 50 + 50 * length es = omega arith in
    rw e (
      omega (
        arith,
        h.0,
        length-append ((guid ++ le16 50) ++ hash) (encode_entries es),
        length-append (guid ++ le16 50) hash,
        length-append guid (le16 50),
        encoded-width es h.1,
      ))

put_entries-zeros :
    (a : Bytes) (es : List (Bytes × Bytes)) (at n m : ℕ)
    → All IsEntry es
    → length a ≡ at
    → n ≡ 50 * length es + m
    → put_entries at es (a ++ replicate n 0) ≡ (a ++ encode_entries es) ++ replicate m 0
unfolding put_entries encode_entries
put_entries-zeros a [] at n m h w e =
    let same : n ≡ m = omega (arith, e) in rw (same, append-nil a) refl
put_entries-zeros a ((guid, hash) ∷ es) at n m h w e =
    let more : n ≡ 50 + (50 * length es + m) = omega (arith, e) in
    let r = 50 * length es + m in
    let w1 : length (a ++ guid) ≡ at + 16 = omega (arith, w, h.0, length-append a guid) in
    let w2 : length ((a ++ guid) ++ le16 50) ≡ at + 18 =
      omega (arith, w1, length-append (a ++ guid) (le16 50)) in
    let w3 : length (((a ++ guid) ++ le16 50) ++ hash) ≡ at + 50 =
      omega (arith, w2, h.0, length-append ((a ++ guid) ++ le16 50) hash) in
    let p1 : put at guid (a ++ replicate n 0) ≡ (a ++ guid) ++ replicate (34 + r) 0 =
      put-zeros a guid at n (34 + r) w (omega (arith, more, h.0)) in
    let p2 : put (at + 16) (le16 50) ((a ++ guid) ++ replicate (34 + r) 0)
        ≡ ((a ++ guid) ++ le16 50) ++ replicate (32 + r) 0 =
      put-zeros (a ++ guid) (le16 50) (at + 16) (34 + r) (32 + r) w1 (omega arith) in
    let p3 : put (at + 18) hash (((a ++ guid) ++ le16 50) ++ replicate (32 + r) 0)
        ≡ (((a ++ guid) ++ le16 50) ++ hash) ++ replicate r 0 =
      put-zeros ((a ++ guid) ++ le16 50) hash (at + 18) (32 + r) r w2 (omega (arith, h.0)) in
    let assoc : ((((a ++ guid) ++ le16 50) ++ hash) ++ encode_entries es)
        ≡ a ++ (((guid ++ le16 50) ++ hash) ++ encode_entries es) =
      simp append_assoc refl in
    rw (p1, p2, p3, ← assoc)
      (put_entries-zeros (((a ++ guid) ++ le16 50) ++ hash) es (at + 50) r m h.1 w3 refl)

module _ (little_endian_bytes : Bytes → Bytes) where
  -- The hashes of a table, and the GUIDs that name them, have their widths.
  abbrev pub IsSized : KernelHashes → Type 0
  IsSized k =
      (length (guid_hash_table little_endian_bytes) ≡ 16)
      × All IsEntry (entries_of little_endian_bytes k)

  -- The table without its padding.
  abbrev pub header_and_entries : KernelHashes → Bytes
  header_and_entries k =
      (guid_hash_table little_endian_bytes ++ le16 hash_table_size)
      ++ encode_entries (entries_of little_endian_bytes k)

  table_layout :
      (k : KernelHashes)
      → IsSized k
      → table little_endian_bytes k ≡ header_and_entries k ++ replicate 8 0
  unfolding table
  table_layout k h =
      let header = guid_hash_table little_endian_bytes in
      let p1 : put 0 header (replicate 176 0) ≡ header ++ replicate 160 0 =
        put-zeros [] header 0 176 160 refl (omega (arith, h.0)) in
      let p2 : put 16 (le16 168) (header ++ replicate 160 0)
          ≡ (header ++ le16 168) ++ replicate 158 0 =
        put-zeros header (le16 168) 16 160 158 h.0 (omega arith) in
      rw (p1, p2)
        (put_entries-zeros (header ++ le16 168) (entries_of little_endian_bytes k) 18 158 8 h.1
          (omega (arith, h.0, length-append header (le16 168))) (omega arith))

  length-table : (k : KernelHashes) → IsSized k → length (table little_endian_bytes k) ≡ 176
  length-table k h =
      let header = guid_hash_table little_endian_bytes in
      let entries = entries_of little_endian_bytes k in
      rw (table_layout k h) (
        omega (
          arith,
          h.0,
          length-append (header_and_entries k) (replicate 8 0),
          length-append (header ++ le16 168) (encode_entries entries),
          length-append header (le16 168),
          encoded-width entries h.1,
        ))

  -- The page that is measured for kernel hashes is all zeros but for the table at its offset, as long as
  -- the table ends within the page: the GUID of the table, its size of 168, the entries of the command
  -- line, the initrd and the kernel in this order, each its GUID, its size of 50 and its hash, and 8 zeros.
  pub page_layout :
      (k : KernelHashes) (offset : ℕ)
      → IsSized k
      → offset + hash_table_padded ≤ page_size
      → page little_endian_bytes k offset
        ≡ (replicate offset 0 ++ header_and_entries k)
          ++ replicate (8 + (page_size - (offset + hash_table_padded))) 0
  unfolding page
  page_layout k offset h fits =
      let rest = page_size - (offset + hash_table_padded) in
      let sum : page_size ≡ offset + (length (table little_endian_bytes k) + rest) =
        omega (arith, fits, length-table k h) in
      placed (table little_endian_bytes k) offset page_size rest sum
      ∙ ap (λ t. (replicate offset 0 ++ t) ++ replicate rest 0) (table_layout k h)
      ∙ padded (replicate offset 0) (header_and_entries k) rest
