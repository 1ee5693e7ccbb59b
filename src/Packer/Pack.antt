-- ===== src/Packer/Pack.antt =====
-- `pack_files` of crates/ioengine/src/packer.rs.
use udpix.Base.{
  ℕ, zero, suc, ◌+◌, ◌-◌, ◌/◌, List, [], ◌∷◌, ◌++◌, ltb, if◌then◌else◌, length, take, drop,
}
use udpix.Base.Bytes.{u32, u64}
use udpix.Packer.Wire.{FileEntry, PackBlock, block_size, serialise_block}

-- A file is its path and its bytes.
abbrev pub File : Type 0
File = List ℕ × List ℕ

-- The accumulators of the loop.
pub record Packing : Type 0 where
  pub blocks : List PackBlock
  pub block_id : ℕ
  pub entries : List FileEntry
  pub payload : List ℕ

unfoldable pub start_packing : Packing
start_packing = record { blocks = []; block_id = 0; entries = []; payload = [] }

-- Serialises a block and counts it.
unfoldable pub push_block : Packing → List FileEntry → List ℕ → Packing
push_block w entries payload = record w {
  blocks =
      w.blocks
      ++ (record { id = w.block_id; bytes = serialise_block w.block_id entries payload } ∷ []);
  block_id = u64 (w.block_id + 1);
}

abbrev pub flush_entries : List FileEntry → Packing → Packing
flush_entries [] w = w
flush_entries (e ∷ es) w = record (push_block w (e ∷ es) w.payload) { entries = []; payload = [] }

unfoldable pub flush : Packing → Packing
flush w = flush_entries w.entries w

-- `bytes.chunks(BLOCK_SIZE)`: the fuel is the length, each round takes at least one byte.
unfoldable pub split_fuel : ℕ → List ℕ → List (List ℕ)
split_fuel zero xs = []
split_fuel (suc n) [] = []
split_fuel (suc n) (x ∷ xs) = take block_size (x ∷ xs) ∷ split_fuel n (drop block_size (x ∷ xs))

-- `div_ceil`.
abbrev pub part_count : List ℕ → ℕ
part_count bytes = u32 ((length bytes + (block_size - 1)) / block_size)

unfoldable pub push_parts : List ℕ → ℕ → ℕ → List (List ℕ) → Packing → Packing
push_parts path total_parts part_idx [] w = w
push_parts path total_parts part_idx (chunk ∷ more) w =
    push_parts path total_parts (part_idx + 1) more (
      push_block w
        (record {
          path = path;
          offset = 0;
          size = length chunk;
          part_index = u32 part_idx;
          total_parts = total_parts;
        }
          ∷ [])
        chunk)

unfoldable pub accumulate : List ℕ → List ℕ → Packing → Packing
accumulate path bytes w = record w {
  entries =
      w.entries
      ++ (record {
        path = path;
        offset = length w.payload;
        size = length bytes;
        part_index = 0;
        total_parts = 1;
      }
          ∷ []);
  payload = w.payload ++ bytes;
}

unfoldable pub pack_file : File → Packing → Packing
pack_file (path, bytes) w =
    if ltb block_size (length bytes)
    then push_parts path (part_count bytes) 0 (split_fuel (length bytes) bytes) (flush w)
    else if ltb block_size (length w.payload + length bytes)
    then accumulate path bytes (flush w)
    else accumulate path bytes w

unfoldable pub pack_loop : List File → Packing → Packing
pack_loop [] w = w
pack_loop (file ∷ files) w = pack_loop files (pack_file file w)

unfoldable pub pack_files : List File → List PackBlock
pack_files files = (flush (pack_loop files start_packing)).blocks
