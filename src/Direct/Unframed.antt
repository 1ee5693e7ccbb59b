-- ===== src/Direct/Unframed.antt =====
-- The mode without frames: run_rudp of crates/cli/src/send.rs and of crates/cli/src/receive.rs, where the
-- payloads of the datagrams go to the writer as they are.
use udpix.Base.{
  ℕ, suc, ◌+◌, ◌-◌, ◌^◌, ◌≤◌, ◌<◌, ◌≡◌, refl, sym, ap, ◌∙◌, Bool, false, List, [], ◌∷◌, ◌++◌, none,
  ltb, length, take, arith, ge→ltb, length-append, length-take,
}
use udpix.Base.Bytes.{u32, to_le_bytes}
use udpix.Packer.Wire.{
  FileEntry, block_size, magic, version, entry_bytes, manifest_bytes, serialise_block,
  unpack_entries,
}
use udpix.Packer.Manifest.{IsEntry, read_manifest-At, cut_entries-short}
use udpix.Packer.Pack.{
  Packing, start_packing, push_block, flush, accumulate, pack_file, pack_loop, pack_files,
}
use udpix.Packer.Blocks.{IsPath}
use udpix.Sender.State.{max_payload}
use udpix.Sender.Chunks.{chunks, chunks_fuel}
use udpix.IoEngine.Writer.{WriterThread, on_chunks, receive_and_write}
use udpix.IoEngine.Written.{block_bytes}

take-append_past :
    (front xs : List ℕ) (k : ℕ) → take (length front + k) (front ++ xs) ≡ front ++ take k xs
take-append_past [] xs k = ap (λ (n : ℕ). take n xs) (omega arith)
take-append_past (x ∷ front) xs k =
    let e : suc (length front) + k ≡ suc (length front + k) = omega arith in
    ap (λ (n : ℕ). take n (x ∷ (front ++ xs))) e
    ∙ ap (λ (t : List ℕ). x ∷ t) (take-append_past front xs k)

abbrev whole_file : List ℕ → List ℕ → FileEntry
whole_file path bytes = record {
  path = path;
  offset = 0;
  size = length bytes;
  part_index = 0;
  total_parts = 1;
}

-- What stands in a block before the payload.
abbrev front_of : FileEntry → List ℕ
front_of e =
    to_le_bytes 4 magic
    ++ (to_le_bytes 2 version
        ++ (to_le_bytes 8 0 ++ (to_le_bytes 4 (u32 1) ++ manifest_bytes (e ∷ []))))

serialise_block-front :
    (e : FileEntry) (payload : List ℕ) → serialise_block 0 (e ∷ []) payload ≡ front_of e ++ payload
unfolding serialise_block
serialise_block-front e payload = refl

length-front_of : (e : FileEntry) → length (front_of e) ≡ 44 + length e.path
unfolding manifest_bytes entry_bytes
length-front_of e = omega (
  arith,
  length-append (entry_bytes e) [],
  length-append e.path (
      to_le_bytes 8 e.offset
      ++ (to_le_bytes 8 e.size ++ (to_le_bytes 4 e.part_index ++ to_le_bytes 4 e.total_parts))),
)

first_chunk :
    (b : List ℕ) → 0 < length b → (rest : List (List ℕ)) × (chunks b ≡ take max_payload b ∷ rest)
unfolding chunks chunks_fuel
first_chunk [] h = absurd (omega arith)
first_chunk (x ∷ b) h = (_, refl)

module _ (is_utf8 : List ℕ → Bool) where
  whole_file-IsEntry :
      (path bytes : List ℕ)
      → IsPath is_utf8 path
      → length bytes < 2 ^ 64
      → IsEntry is_utf8 (whole_file path bytes)
  whole_file-IsEntry path bytes (utf8, short) small = record {
    path_is_utf8 = utf8;
    path_fits = short;
    offset_fits = omega arith;
    size_fits = small;
    part_fits = omega arith;
    parts_fit = omega arith;
  }

  -- A block that ends within the bytes of its only file is refused.
  short_block :
      (path bytes : List ℕ) (n : ℕ)
      → IsPath is_utf8 path
      → length bytes ≤ block_size
      → length (front_of (whole_file path bytes)) ≤ n
      → n < length (front_of (whole_file path bytes)) + length bytes
      → unpack_entries is_utf8
          (record { id = 0; bytes = take n (serialise_block 0 (whole_file path bytes ∷ []) bytes) })
        ≡ none
  short_block path bytes n ok small behind within =
      let e = whole_file path bytes in
      let front = front_of e in
      let k = n - length front in
      let split : length front + k ≡ n = omega arith in
      let cut : take n (serialise_block 0 (e ∷ []) bytes) ≡ front ++ take k bytes =
        ap (λ (t : List ℕ). take n t) (serialise_block-front e bytes)
        ∙ ap (λ (m : ℕ). take m (front ++ bytes)) (sym split)
        ∙ take-append_past front bytes k in
      let buf = front ++ take k bytes in
      let size = length-front_of e in
      let left = length-take k bytes in
      let total = length-append front (take k bytes) in
      let fits : length buf < 2 ^ 64 = omega (arith, size, left, total, ok.1) in
      let (next, read, at) =
        read_manifest-At is_utf8 0 (e ∷ []) (take k bytes) buf (omega arith) (omega arith)
          (whole_file-IsEntry path bytes ok (omega arith), tt) fits (refl, omega arith) in
      ap (λ (t : List ℕ). unpack_entries is_utf8 (record { id = 0; bytes = t })) cut
      ∙ read
      ∙ cut_entries-short is_utf8 e buf next (take k bytes) (omega (arith, at.1, fits, left))
          (omega (arith, left)) at

  one_file :
      (path bytes : List ℕ)
      → length bytes ≤ block_size
      → pack_file (path, bytes) start_packing ≡ accumulate path bytes start_packing
  unfolding pack_file start_packing
  one_file path bytes small =
      let one : ltb block_size (length bytes) ≡ false = ge→ltb _ _ small in
      let room : ltb block_size (0 + length bytes) ≡ false = ge→ltb _ _ (omega arith) in
      rw (one, room) refl

  one_block :
      (path bytes : List ℕ)
      → length bytes ≤ block_size
      → block_bytes (pack_files ((path, bytes) ∷ []))
        ≡ serialise_block 0 (whole_file path bytes ∷ []) bytes ∷ []
  unfolding pack_files pack_loop start_packing accumulate flush push_block
  one_block path bytes small =
      ap (λ (w : Packing). block_bytes (flush w).blocks) (one_file path bytes small)

  -- Without frames a file that does not fit one datagram is not received: its only block is cut into
  -- several payloads, and when the first of them is the first that the writer gets, the writer takes it
  -- for a whole block and fails, whatever payloads follow and whatever its thread answers. It holds for
  -- a file of more bytes than a payload and at most those of a block, with a UTF-8 path of at most 1000
  -- bytes.
  pub unframed_lem :
      (thread : WriterThread) (output_dir path bytes : List ℕ) (following : List (List ℕ))
      → IsPath is_utf8 path
      → length path ≤ 1000
      → max_payload < length bytes
      → length bytes ≤ block_size
      → (b first : List ℕ) × (rest : List (List ℕ)) × (block_bytes (pack_files ((path, bytes) ∷ []))
          ≡ b ∷ [])
        × (chunks b ≡ first ∷ rest)
        × (receive_and_write thread output_dir is_utf8 (first ∷ following) ≡ none)
  unfolding receive_and_write on_chunks
  unframed_lem thread output_dir path bytes following ok short large small =
      let e = whole_file path bytes in
      let b = serialise_block 0 (e ∷ []) bytes in
      let size = length-front_of e in
      let whole : length b ≡ length (front_of e) + length bytes =
        ap (λ (t : List ℕ). length t) (serialise_block-front e bytes)
        ∙ length-append (front_of e) bytes in
      let (rest, cut) = first_chunk b (omega (arith, whole, size)) in
      let refused =
        short_block path bytes max_payload ok small (omega (arith, size)) (omega (arith, size)) in
      (b, take max_payload b, rest, one_block path bytes small, cut, rw refused refl)
