-- ===== src/Packer/Wire.antt =====
-- The wire format of a block (crates/ioengine/src/packer.rs). A path is the list of its UTF-8 bytes;
-- whether bytes are UTF-8 is a parameter, by which the standard library checks them. An error is
-- `none`, and so is the panic of a slice that ends before it starts. Positions and lengths are 64-bit.
use udpix.Base.{
  ℕ, zero, suc, ◌+◌, ◌-◌, ◌*◌, Bool, List, [], ◌∷◌, ◌++◌, Option, none, some, ltb, ◌==◌,
  if◌then◌else◌, length, slice, ◌>>=◌,
}
use udpix.Base.Bytes.{u16, u32, u64, to_le_bytes, from_le_bytes}

abbrev pub block_size : ℕ
block_size = 16 * 1024 * 1024

abbrev pub magic : ℕ
magic = 1430540376

abbrev pub version : ℕ
version = 1

pub record FileEntry : Type 0 where
  pub path : List ℕ
  pub offset : ℕ
  pub size : ℕ
  pub part_index : ℕ
  pub total_parts : ℕ

pub record PackBlock : Type 0 where
  pub id : ℕ
  pub bytes : List ℕ

unfoldable pub entry_bytes : FileEntry → List ℕ
entry_bytes e =
    to_le_bytes 2 (u16 (length e.path))
    ++ (e.path
        ++ (to_le_bytes 8 e.offset
            ++ (to_le_bytes 8 e.size
                ++ (to_le_bytes 4 e.part_index ++ to_le_bytes 4 e.total_parts))))

unfoldable pub manifest_bytes : List FileEntry → List ℕ
manifest_bytes [] = []
manifest_bytes (e ∷ es) = entry_bytes e ++ manifest_bytes es

unfoldable pub serialise_block : ℕ → List FileEntry → List ℕ → List ℕ
serialise_block block_id entries payload =
    to_le_bytes 4 magic
    ++ (to_le_bytes 2 version
        ++ (to_le_bytes 8 block_id
            ++ (to_le_bytes 4 (u32 (length entries)) ++ (manifest_bytes entries ++ payload))))

-- The bytes at a position, and the position behind them.
unfoldable pub read_bytes : List ℕ → ℕ → ℕ → Option (List ℕ × ℕ)
read_bytes buf pos n =
    if ltb (length buf) (u64 (pos + n)) then none else some (slice buf pos n, u64 (pos + n))

-- `read_u16`, `read_u32` and `read_u64` are this at two, four and eight bytes.
unfoldable pub read_le : List ℕ → ℕ → ℕ → Option (ℕ × ℕ)
read_le buf pos n = do b ← read_bytes buf pos n; some (from_le_bytes b.0, b.1)

module _ (is_utf8 : List ℕ → Bool) where
  unfoldable pub read_path : List ℕ → ℕ → Option (List ℕ × ℕ)
  read_path buf pos = do
    path_len ← read_le buf pos 2
    path ← read_bytes buf path_len.1 path_len.0
    if is_utf8 path.0 then some path else none

  unfoldable pub read_entry : List ℕ → ℕ → Option (FileEntry × ℕ)
  read_entry buf pos = do
    path ← read_path buf pos
    offset ← read_le buf path.1 8
    size ← read_le buf offset.1 8
    part_index ← read_le buf size.1 4
    total_parts ← read_le buf part_index.1 4
    some (
      record {
        path = path.0;
        offset = offset.0;
        size = size.0;
        part_index = part_index.0;
        total_parts = total_parts.0;
      },
      total_parts.1,
    )

  unfoldable pub read_entries : ℕ → List ℕ → ℕ → Option (List FileEntry × ℕ)
  read_entries zero buf pos = some ([], pos)
  read_entries (suc n) buf pos = do
    e ← read_entry buf pos
    es ← read_entries n buf e.1
    some (e.0 ∷ es.0, es.1)

  -- `none` if the data of an entry lies outside the block.
  unfoldable pub cut_entries : List ℕ → ℕ → List FileEntry → Option (List (FileEntry × List ℕ))
  cut_entries buf payload_start [] = some []
  cut_entries buf payload_start (e ∷ es) =
      let start = u64 (payload_start + e.offset) in
      let end = u64 (start + e.size) in
      let rest = cut_entries buf payload_start es in
      if ltb (length buf) end
      then none
      else if ltb end start
      then none
      else (rest >>= λ out. some ((e, slice buf start (end - start)) ∷ out))

  unfoldable pub unpack_entries : PackBlock → Option (List (FileEntry × List ℕ))
  unpack_entries block = do
    m ← read_le block.bytes 0 4
    v ← read_le block.bytes m.1 2
    i ← read_le block.bytes v.1 8
    count ← read_le block.bytes i.1 4
    es ← if m.0 == magic then read_entries count.0 block.bytes count.1 else none
    cut_entries block.bytes es.1 es.0

  abbrev pub paths : List (FileEntry × List ℕ) → List (List ℕ × List ℕ)
  paths [] = []
  paths ((e, d) ∷ es) = (e.path, d) ∷ paths es

  unfoldable pub unpack : PackBlock → Option (List (List ℕ × List ℕ))
  unpack block = do es ← unpack_entries block; some (paths es)
