-- ===== src/Packer/Manifest.antt =====
-- Reading what was written (crates/ioengine/src/packer.rs).
use udpix.Base.{
  none, lt→ltb, ℕ, ◌+◌, ◌-◌, ◌^◌, ◌≤◌, ◌<◌, ◌≡◌, refl, sym, ap, ◌∙◌, subst, Bool, true, false, List,
  [], ◌∷◌, ◌++◌, some, ltb, length, take, drop, slice, All, length-append, take-append_left,
  drop-append_left, drop-drop, arith, ge→ltb, append_assoc,
}
use udpix.Base.Bytes.{u16, u32, u64, to_le_bytes, length-to_le_bytes, from_le_bytes-to_le_bytes}
use udpix.Packer.Wire.{
  FileEntry, magic, version, entry_bytes, manifest_bytes, serialise_block, read_bytes, read_le,
  read_path, read_entry, read_entries, cut_entries, unpack_entries,
}

-- The rest of the buffer at a position.
abbrev pub At : List ℕ → ℕ → List ℕ → Type 0
At buf pos xs = (drop pos buf ≡ xs) × (pos + length xs ≡ length buf)

read_bytes-At :
    (buf : List ℕ) (pos : ℕ) (ys xs : List ℕ)
    → length buf < 2 ^ 64
    → At buf pos (ys ++ xs)
    → (read_bytes buf pos (length ys) ≡ some (ys, pos + length ys)) × At buf (pos + length ys) xs
unfolding read_bytes
read_bytes-At buf pos ys xs small (here, size) =
    let fits : u64 (pos + length ys) ≡ pos + length ys = omega (arith, length-append ys xs) in
    let inside : ltb (length buf) (pos + length ys) ≡ false =
      ge→ltb _ _ (omega (arith, length-append ys xs)) in
    let bytes : slice buf pos (length ys) ≡ ys =
      ap (λ (t : List ℕ). take (length ys) t) here ∙ take-append_left ys xs (length ys) refl in
    let rest : drop (pos + length ys) buf ≡ xs =
      sym (drop-drop pos (length ys) buf)
      ∙ ap (λ (t : List ℕ). drop (length ys) t) here
      ∙ drop-append_left ys xs (length ys) refl in
    (rw (fits, inside, bytes) refl, (rest, omega (arith, length-append ys xs)))

read_le-At :
    (buf : List ℕ) (pos n v : ℕ) (xs : List ℕ)
    → length buf < 2 ^ 64
    → v < 256 ^ n
    → At buf pos (to_le_bytes n v ++ xs)
    → (read_le buf pos n ≡ some (v, pos + n)) × At buf (pos + n) xs
unfolding read_le
read_le-At buf pos n v xs small fits at =
    let (read, after) = read_bytes-At buf pos (to_le_bytes n v) xs small at in
    let size = length-to_le_bytes n v in
    let moved : At buf (pos + n) xs = subst (λ k. At buf (pos + k) xs) size after in
    let read' : read_bytes buf pos n ≡ some (to_le_bytes n v, pos + n) =
      subst (λ k. read_bytes buf pos k ≡ some (to_le_bytes n v, pos + k)) size read in
    (rw (read', from_le_bytes-to_le_bytes n v fits) refl, moved)

module _ (is_utf8 : List ℕ → Bool) where
  -- The entry fits its fields on the wire.
  pub record IsEntry (e : FileEntry) : Type 0 where
    pub path_is_utf8 : is_utf8 e.path ≡ true
    pub path_fits : length e.path < 2 ^ 16
    pub offset_fits : e.offset < 2 ^ 64
    pub size_fits : e.size < 2 ^ 64
    pub part_fits : e.part_index < 2 ^ 32
    pub parts_fit : e.total_parts < 2 ^ 32

  read_path-At :
      (buf : List ℕ) (pos : ℕ) (path xs : List ℕ)
      → length buf < 2 ^ 64
      → is_utf8 path ≡ true
      → length path < 2 ^ 16
      → At buf pos (to_le_bytes 2 (u16 (length path)) ++ (path ++ xs))
      → (read_path is_utf8 buf pos ≡ some (path, pos + 2 + length path))
        × At buf (pos + 2 + length path) xs
  unfolding read_path
  read_path-At buf pos path xs small utf8 fits at =
      let same : u16 (length path) ≡ length path = omega arith in
      let at' : At buf pos (to_le_bytes 2 (length path) ++ (path ++ xs)) =
        subst (λ n. At buf pos (to_le_bytes 2 n ++ (path ++ xs))) same at in
      let (len, behind) = read_le-At buf pos 2 (length path) (path ++ xs) small (omega arith) at' in
      let (read, after) = read_bytes-At buf (pos + 2) path xs small behind in
      (rw (len, read, utf8) refl, after)

  read_entry-At :
      (buf : List ℕ) (pos : ℕ) (e : FileEntry) (xs : List ℕ)
      → length buf < 2 ^ 64
      → IsEntry e
      → At buf pos (entry_bytes e ++ xs)
      → (next : ℕ) × (read_entry is_utf8 buf pos ≡ some (e, next)) × At buf next xs
  unfolding read_entry entry_bytes
  read_entry-At buf pos e xs small v at =
      let tail4 = to_le_bytes 4 e.total_parts ++ xs in
      let tail3 = to_le_bytes 4 e.part_index ++ tail4 in
      let tail2 = to_le_bytes 8 e.size ++ tail3 in
      let tail1 = to_le_bytes 8 e.offset ++ tail2 in
      let at0 : At buf pos (to_le_bytes 2 (u16 (length e.path)) ++ (e.path ++ tail1)) =
        subst (At buf pos)
          (ap (λ (t : List ℕ). to_le_bytes 2 (u16 (length e.path)) ++ t)
            (append_assoc e.path
              (to_le_bytes 8 e.offset
                ++ (to_le_bytes 8 e.size
                    ++ (to_le_bytes 4 e.part_index ++ to_le_bytes 4 e.total_parts)))
              xs))
          at in
      let (path, at1) = read_path-At buf pos e.path tail1 small v.path_is_utf8 v.path_fits at0 in
      let (offset, at2) =
        read_le-At buf _ 8 e.offset tail2 small (omega (arith, v.offset_fits)) at1 in
      let (size, at3) = read_le-At buf _ 8 e.size tail3 small (omega (arith, v.size_fits)) at2 in
      let (part, at4) =
        read_le-At buf _ 4 e.part_index tail4 small (omega (arith, v.part_fits)) at3 in
      let (parts, at5) =
        read_le-At buf _ 4 e.total_parts xs small (omega (arith, v.parts_fit)) at4 in
      (_, rw (path, offset, size, part, parts) refl, at5)

  read_entries-At :
      (es : List FileEntry) (buf : List ℕ) (pos : ℕ) (xs : List ℕ)
      → length buf < 2 ^ 64
      → All IsEntry es
      → At buf pos (manifest_bytes es ++ xs)
      → (next : ℕ) × (read_entries is_utf8 (length es) buf pos ≡ some (es, next)) × At buf next xs
  unfolding read_entries manifest_bytes
  read_entries-At [] buf pos xs small v at = (pos, refl, at)
  read_entries-At (e ∷ es) buf pos xs small (one, v) at =
      let at' = subst (At buf pos) (append_assoc (entry_bytes e) (manifest_bytes es) xs) at in
      let (mid, first, between) = read_entry-At buf pos e (manifest_bytes es ++ xs) small one at' in
      let (next, more, after) = read_entries-At es buf mid xs small v between in
      (next, rw (first, more) refl, after)

  -- The data of an entry lies within the payload.
  abbrev pub Within : List ℕ → FileEntry → Type 0
  Within payload e = e.offset + e.size ≤ length payload

  -- Each entry with the bytes that it points to.
  abbrev pub cut : List ℕ → List FileEntry → List (FileEntry × List ℕ)
  cut payload [] = []
  cut payload (e ∷ es) = (e, slice payload e.offset e.size) ∷ cut payload es

  cut_entries-At :
      (es : List FileEntry) (buf : List ℕ) (start : ℕ) (payload : List ℕ)
      → length buf < 2 ^ 64
      → All (Within payload) es
      → At buf start payload
      → cut_entries is_utf8 buf start es ≡ some (cut payload es)
  unfolding cut_entries
  cut_entries-At [] buf start payload small within at = refl
  cut_entries-At (e ∷ es) buf start payload small (one, within) (here, size) =
      let from : u64 (start + e.offset) ≡ start + e.offset = omega arith in
      let to : u64 (start + e.offset + e.size) ≡ start + e.offset + e.size = omega arith in
      let inside : ltb (length buf) (start + e.offset + e.size) ≡ false =
        ge→ltb _ _ (omega arith) in
      let forward : ltb (start + e.offset + e.size) (start + e.offset) ≡ false =
        ge→ltb _ _ (omega arith) in
      let width : start + e.offset + e.size - (start + e.offset) ≡ e.size = omega arith in
      let bytes : slice buf (start + e.offset) e.size ≡ slice payload e.offset e.size =
        ap (λ (t : List ℕ). take e.size t)
          (sym (drop-drop start e.offset buf) ∙ ap (λ (t : List ℕ). drop e.offset t) here) in
      let rest = cut_entries-At es buf start payload small within (here, size) in
      rw (from, to, inside, forward, width, rest, bytes) refl

  manifest_read :
      (block_id next : ℕ) (es : List FileEntry) (buf : List ℕ)
      → read_le buf 0 4 ≡ some (magic, 4)
      → read_le buf 4 2 ≡ some (version, 6)
      → read_le buf 6 8 ≡ some (block_id, 14)
      → read_le buf 14 4 ≡ some (length es, 18)
      → read_entries is_utf8 (length es) buf 18 ≡ some (es, next)
      → unpack_entries is_utf8 (record { id = block_id; bytes = buf })
        ≡ cut_entries is_utf8 buf next es
  unfolding unpack_entries
  manifest_read block_id next es buf m ver id n entries = rw (m, ver, id, n, entries) refl

  -- The header and the manifest are read, and the entries are left to cut.
  pub read_manifest-At :
      (block_id : ℕ) (es : List FileEntry) (payload buf : List ℕ)
      → block_id < 2 ^ 64
      → length es < 2 ^ 32
      → All IsEntry es
      → length buf < 2 ^ 64
      → At buf 0 (
          to_le_bytes 4 magic
          ++ (to_le_bytes 2 version
              ++ (to_le_bytes 8 block_id
                  ++ (to_le_bytes 4 (u32 (length es)) ++ (manifest_bytes es ++ payload)))))
      → (next : ℕ) × (unpack_entries is_utf8 (record { id = block_id; bytes = buf })
          ≡ cut_entries is_utf8 buf next es)
        × At buf next payload
  read_manifest-At block_id es payload buf fits few v small at0 =
      let count : u32 (length es) ≡ length es = omega arith in
      let tail4 = manifest_bytes es ++ payload in
      let tail3 = to_le_bytes 4 (u32 (length es)) ++ tail4 in
      let tail2 = to_le_bytes 8 block_id ++ tail3 in
      let (m, at1) =
        read_le-At buf 0 4 magic (to_le_bytes 2 version ++ tail2) small (omega arith) at0 in
      let (ver, at2) = read_le-At buf 4 2 version tail2 small (omega arith) at1 in
      let (id, at3) = read_le-At buf 6 8 block_id tail3 small (omega (arith, fits)) at2 in
      let (n, at4) = read_le-At buf 14 4 (u32 (length es)) tail4 small (omega (arith, few)) at3 in
      let (next, entries, at5) = read_entries-At es buf 18 payload small v at4 in
      let n' : read_le buf 14 4 ≡ some (length es, 18) =
        subst (λ c. read_le buf 14 4 ≡ some (c, 18)) count n in
      (next, manifest_read block_id next es buf m ver id n' entries, at5)

  -- A block that was serialised is unpacked into its entries, each with the bytes of the payload
  -- that it points to. It holds where the entries fit their fields and point into the payload, the
  -- paths are UTF-8, and the block is shorter than 2^64 bytes.
  pub unpack_entries-serialise_block :
      (block_id : ℕ) (es : List FileEntry) (payload : List ℕ)
      → block_id < 2 ^ 64
      → length es < 2 ^ 32
      → All IsEntry es
      → All (Within payload) es
      → length (serialise_block block_id es payload) < 2 ^ 64
      → unpack_entries is_utf8
          (record { id = block_id; bytes = serialise_block block_id es payload })
        ≡ some (cut payload es)
  unfolding serialise_block
  unpack_entries-serialise_block block_id es payload fits few v within small =
      let buf = serialise_block block_id es payload in
      let (next, read, at) =
        read_manifest-At block_id es payload buf fits few v small (refl, omega arith) in
      read ∙ cut_entries-At es buf next payload small within at

  -- The payload of the entry ends behind the bytes that are there.
  pub cut_entries-short :
      (e : FileEntry) (buf : List ℕ) (start : ℕ) (payload : List ℕ)
      → start + e.offset + e.size < 2 ^ 64
      → length payload < e.offset + e.size
      → At buf start payload
      → cut_entries is_utf8 buf start (e ∷ []) ≡ none
  unfolding cut_entries
  cut_entries-short e buf start payload small beyond (here, size) =
      let from : u64 (start + e.offset) ≡ start + e.offset = omega arith in
      let to : u64 (start + e.offset + e.size) ≡ start + e.offset + e.size = omega arith in
      let outside : ltb (length buf) (start + e.offset + e.size) ≡ true =
        lt→ltb _ _ (omega arith) in
      rw (from, to, outside) refl
