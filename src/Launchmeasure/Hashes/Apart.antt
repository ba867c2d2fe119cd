-- ===== src/Launchmeasure/Hashes/Apart.antt =====
-- Two sets of kernel hashes give the same page only when they are the same.
use attestation_go.Base.{
  ℕ, ◌+◌, ◌-◌, ◌≤◌, ◌≡◌, refl, sym, ◌∙◌, arith, List, [], ◌∷◌, ◌++◌, Bytes, length, replicate, All,
  length-append, halves,
}
use attestation_go.Launchmeasure.Hashes.{
  KernelHashes, hash_table_padded, hash_table_size, page_size, le16, guid_hash_table, entries_of,
  page,
}
use attestation_go.Launchmeasure.Hashes.Layout.{
  IsEntry, IsSized, encode_entries, encoded-width, header_and_entries, page_layout,
}

length-entry : (g h : Bytes) → length g ≡ 16 → length h ≡ 32 → length ((g ++ le16 50) ++ h) ≡ 50
length-entry g h wg wh =
    omega (arith, wg, wh, length-append (g ++ le16 50) h, length-append g (le16 50))

encode_entries-inj :
    (es es' : List (Bytes × Bytes))
    → All IsEntry es
    → All IsEntry es'
    → length es ≡ length es'
    → encode_entries es ≡ encode_entries es'
    → es ≡ es'
unfolding encode_entries
encode_entries-inj [] [] h h' n e = refl
encode_entries-inj [] (x ∷ es') h h' n e = absurd (omega (arith, n))
encode_entries-inj (x ∷ es) [] h h' n e = absurd (omega (arith, n))
encode_entries-inj ((g, v) ∷ es) ((g', v') ∷ es') h h' n e =
    let wg : length g ≡ 16 = h.0.0 in
    let wv : length v ≡ 32 = h.0.1 in
    let wg' : length g' ≡ 16 = h'.0.0 in
    let wv' : length v' ≡ 32 = h'.0.1 in
    let (entry, more) =
      halves ((g ++ le16 50) ++ v) ((g' ++ le16 50) ++ v') (encode_entries es) (encode_entries es')
        (length-entry g v wg wv ∙ sym (length-entry g' v' wg' wv')) e in
    let (front, hash) =
      halves (g ++ le16 50) (g' ++ le16 50) v v'
        (omega (arith, wg, wg', length-append g (le16 50), length-append g' (le16 50))) entry in
    let (guid, _) = halves g g' (le16 50) (le16 50) (wg ∙ sym wg') front in
    let rest = encode_entries-inj es es' h.1 h'.1 (omega (arith, n)) more in cc (guid, hash, rest)

made :
    {a a' b b' c c' : Bytes}
    → a ≡ a'
    → b ≡ b'
    → c ≡ c'
    → ◌≡◌ {A = KernelHashes}
        (record { kernel = a; initrd = b; cmdline = c })
        (record { kernel = a'; initrd = b'; cmdline = c' })
made p q r = rw (p, q, r) refl

same_hashes :
    (k k' : KernelHashes)
    → k.kernel ≡ k'.kernel
    → k.initrd ≡ k'.initrd
    → k.cmdline ≡ k'.cmdline
    → k ≡ k'
same_hashes k k' p q r = made p q r

module _ (little_endian_bytes : Bytes → Bytes) where
  -- Where the GUIDs and the hashes have their widths and the table ends within the page, two sets of
  -- kernel hashes whose pages at one offset are the same bytes are the same.
  pub page-inj :
      (k k' : KernelHashes) (offset : ℕ)
      → IsSized little_endian_bytes k
      → IsSized little_endian_bytes k'
      → offset + hash_table_padded ≤ page_size
      → page little_endian_bytes k offset ≡ page little_endian_bytes k' offset
      → k ≡ k'
  page-inj k k' offset h h' fits e =
      let front = replicate offset 0 in
      let first = header_and_entries little_endian_bytes k in
      let second = header_and_entries little_endian_bytes k' in
      let zeros = replicate (8 + (page_size - (offset + hash_table_padded))) 0 in
      let header = guid_hash_table little_endian_bytes ++ le16 hash_table_size in
      let one = entries_of little_endian_bytes k in
      let other = entries_of little_endian_bytes k' in
      let both : (front ++ first) ++ zeros ≡ (front ++ second) ++ zeros =
        sym (page_layout little_endian_bytes k offset h fits)
        ∙ e
        ∙ page_layout little_endian_bytes k' offset h' fits in
      let widths : length (encode_entries one) ≡ length (encode_entries other) =
        encoded-width one h.1 ∙ sym (encoded-width other h'.1) in
      let long : length (front ++ first) ≡ length (front ++ second) = omega (
        arith,
        widths,
        length-append front first,
        length-append front second,
        length-append header (encode_entries one),
        length-append header (encode_entries other),
      ) in
      let (fronts, _) = halves (front ++ first) (front ++ second) zeros zeros long both in
      let (_, tables) = halves front front first second refl fronts in
      let (_, entries) =
        halves header header (encode_entries one) (encode_entries other) refl tables in
      let same : one ≡ other = encode_entries-inj one other h.1 h'.1 refl entries in
      same_hashes k k' (cc (same)) (cc (same)) (cc (same))
