-- ===== src/Launchmeasure/Hashes.antt =====
-- launchmeasure/snp/hashes.go: the table of kernel hashes, and the page that holds it.
pub mod Layout
pub mod Apart
use attestation_go.Base.{
  ℕ, ◌+◌, ◌-◌, ◌/◌, ◌%◌, List, [], ◌∷◌, ◌++◌, Bytes, length, take, drop, replicate, Stdlib,
}

pub record KernelHashes : Type 0 where
  pub kernel : Bytes
  pub initrd : Bytes
  pub cmdline : Bytes

abbrev pub hash_entry_size : ℕ
hash_entry_size = 50

abbrev pub hash_table_size : ℕ
hash_table_size = 168

abbrev pub hash_table_padded : ℕ
hash_table_padded = 176

abbrev pub page_size : ℕ
page_size = 4096

-- binary.LittleEndian.PutUint16
abbrev pub le16 : ℕ → Bytes
le16 n = n % 256 ∷ n / 256 % 256 ∷ []

-- copy(b[at:], src)
unfoldable pub put : ℕ → Bytes → Bytes → Bytes
put at src b = take at b ++ take (length b - at) src ++ drop (at + length src) b

unfoldable pub put_entries : ℕ → List (Bytes × Bytes) → Bytes → Bytes
unfolding put
put_entries at [] b = b
put_entries at ((guid, hash) ∷ es) b =
    put_entries (at + hash_entry_size) es
      (put (at + 18) hash (put (at + 16) (le16 hash_entry_size) (put at guid b)))

-- ovmf.LittleEndianBytes, which gives the 16 bytes of a GUID the order of UEFI; each GUID is given by
-- the bytes of its text.
module _ (little_endian_bytes : Bytes → Bytes) where
  abbrev pub guid_hash_table : Bytes
  guid_hash_table =
      little_endian_bytes
        (148 ∷ 56 ∷ 214 ∷ 6 ∷ 79 ∷ 34 ∷ 76 ∷ 201 ∷ 180 ∷ 121 ∷ 167 ∷ 147 ∷ 212 ∷ 17 ∷ 253 ∷ 33 ∷ [])

  abbrev pub guid_hash_kernel : Bytes
  guid_hash_kernel =
      little_endian_bytes (
        77 ∷ 231 ∷ 148 ∷ 55 ∷ 171 ∷ 210 ∷ 66 ∷ 127 ∷ 184 ∷ 53 ∷ 213 ∷ 177 ∷ 114 ∷ 210 ∷ 4 ∷ 91 ∷ [])

  abbrev pub guid_hash_initrd : Bytes
  guid_hash_initrd =
      little_endian_bytes (
        68 ∷ 186 ∷ 247 ∷ 49 ∷ 58 ∷ 47 ∷ 75 ∷ 215 ∷ 154 ∷ 241 ∷ 65 ∷ 226 ∷ 145 ∷ 105 ∷ 120 ∷ 29 ∷ [])

  abbrev pub guid_hash_cmdline : Bytes
  guid_hash_cmdline =
      little_endian_bytes (
        151 ∷ 208 ∷ 45 ∷ 216 ∷ 189 ∷ 32 ∷ 76 ∷ 148 ∷ 170 ∷ 120 ∷ 231 ∷ 113 ∷ 77 ∷ 54 ∷ 171 ∷ 42
        ∷ [])

  -- The three entries, in their order.
  abbrev pub entries_of : KernelHashes → List (Bytes × Bytes)
  entries_of k =
      (guid_hash_cmdline, k.cmdline)
      ∷ (guid_hash_initrd, k.initrd)
      ∷ (guid_hash_kernel, k.kernel)
      ∷ []

  -- KernelHashes.table
  unfoldable pub table : KernelHashes → Bytes
  unfolding put put_entries
  table k =
      put_entries 18 (entries_of k)
        (put 16 (le16 hash_table_size) (put 0 guid_hash_table (replicate hash_table_padded 0)))

  -- KernelHashes.page
  unfoldable pub page : KernelHashes → ℕ → Bytes
  unfolding put table
  page k offset = put offset (table k) (replicate page_size 0)

-- NewKernelHashes
unfoldable pub new_kernel_hashes : ⦃lib : Stdlib⦄ → Bytes → Bytes → Bytes → KernelHashes
new_kernel_hashes ⦃lib⦄ kernel_file initrd_file command_line = record {
  kernel = lib.sha256 kernel_file;
  initrd = lib.sha256 initrd_file;
  cmdline = lib.sha256 (command_line ++ (0 ∷ []));
}
