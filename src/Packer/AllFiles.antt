-- ===== src/Packer/AllFiles.antt =====
-- All files through their blocks (crates/ioengine/src/packer.rs).
use udpix.Base.{
  take_all, ℕ, suc, ◌+◌, ◌^◌, ◌<◌, ◌≡◌, refl, sym, ap, ap₂, ◌∙◌, subst, Bool, List, [], ◌∷◌, ◌++◌,
  some, ltb, length, slice, All, arith, inl, inr, Bool-cases, ltb→ge, append-nil, append_assoc,
}
use udpix.Base.Bytes.{u32}
use udpix.Packer.Wire.{FileEntry, block_size}
use udpix.Packer.Manifest.{IsEntry, cut}
use udpix.Packer.Pack.{
  File, Packing, start_packing, push_block, flush, split_fuel, part_count, push_parts, pack_file,
  pack_loop, pack_files,
}
use udpix.Packer.Blocks.{
  unpack_all, unpack_parts, Unpacks, unpack_all-Unpacks, unpack_parts-Unpacks, parts_in,
  push_block-Unpacks, IsPacking, pending, Stands, Flushed, flush-Flushed, IsPath,
  accumulate-IsPacking,
}
use udpix.Packer.Pieces.{
  Piece, piece, parts_from, parts_of, parts, pieces, plain_pieces-parts, Sized, split_fuel-Sized,
}

module _ (is_utf8 : List ℕ → Bool) where
  pending-none : (w : Packing) → w.entries ≡ [] → pending is_utf8 w ≡ []
  pending-none w e = ap (λ (es : List FileEntry). parts_in is_utf8 (cut is_utf8 w.payload es)) e

  abbrev part : List ℕ → ℕ → ℕ → List ℕ → FileEntry
  part path total_parts part_idx chunk = record {
    path = path;
    offset = 0;
    size = length chunk;
    part_index = u32 part_idx;
    total_parts = total_parts;
  }

  push_part-Flushed :
      (path : List ℕ) (total_parts part_idx room : ℕ) (chunk : List ℕ) (w : Packing)
      (ps : List Piece)
      → IsPath is_utf8 path
      → total_parts < 2 ^ 32
      → Sized chunk
      → Flushed is_utf8 room ps w
      → Flushed is_utf8 room
          (ps ++ (piece path (u32 part_idx) total_parts chunk ∷ []))
          (push_block w (part path total_parts part_idx chunk ∷ []) chunk)
  unfolding push_block
  push_part-Flushed path total_parts part_idx room chunk w ps (utf8, short) total sized
        (v, (done, blocks, split), no_entries, no_payload) =
      let e = part path total_parts part_idx chunk in
      let e_fits : IsEntry is_utf8 e = record {
        path_is_utf8 = utf8;
        path_fits = short;
        offset_fits = omega arith;
        size_fits = omega arith;
        part_fits = omega arith;
        parts_fit = total;
      } in
      let pushed =
        push_block-Unpacks is_utf8 w (e ∷ []) chunk done v.id_fits (omega arith) (e_fits, tt)
          (omega arith, tt) sized blocks in
      let all : slice chunk 0 (length chunk) ≡ chunk =
        take_all chunk (length chunk) (omega arith) in
      let none_pending = pending-none w no_entries in
      (
        record {
          id_fits = omega arith;
          valid = v.valid;
          within = v.within;
          bounded = v.bounded;
          few = v.few;
          empty_together = v.empty_together;
        },
        (
          done ++ (piece path (u32 part_idx) total_parts (slice chunk 0 (length chunk)) ∷ []),
          pushed,
          ap₂ (λ (t : List Piece) (d : List ℕ). t ++ (piece path (u32 part_idx) total_parts d ∷ []))
                (split ∙ ap (λ (t : List Piece). done ++ t) none_pending ∙ append-nil done)
                (sym all)
              ∙ sym (
                  append-nil (
                    done
                    ++ (piece path (u32 part_idx) total_parts (slice chunk 0 (length chunk)) ∷ [])))
              ∙ ap
                  (λ (t : List Piece).
                    (done
                      ++ (piece path (u32 part_idx) total_parts (slice chunk 0 (length chunk))
                          ∷ []))
                    ++ t)
                  (sym none_pending),
        ),
        no_entries,
        no_payload,
      )

  push_parts-Flushed :
      (path : List ℕ) (total_parts part_idx room : ℕ) (cs : List (List ℕ)) (w : Packing)
      (ps : List Piece)
      → IsPath is_utf8 path
      → total_parts < 2 ^ 32
      → All Sized cs
      → Flushed is_utf8 room ps w
      → Flushed is_utf8 room
          (ps ++ parts_from path part_idx total_parts cs)
          (push_parts path total_parts part_idx cs w)
  unfolding push_parts
  push_parts-Flushed path total_parts part_idx room [] w ps ok total sized h =
      subst (λ t. Flushed is_utf8 room t w) (sym (append-nil ps)) h
  push_parts-Flushed path total_parts part_idx room (c ∷ cs) w ps ok total (one, sized) h =
      let pushed = push_part-Flushed path total_parts part_idx room c w ps ok total one h in
      let w' = push_block w (part path total_parts part_idx c ∷ []) c in
      let rest =
        push_parts-Flushed path total_parts (part_idx + 1) room cs w' _ ok total sized pushed in
      subst (λ t. Flushed is_utf8 room t (push_parts path total_parts (part_idx + 1) cs w'))
        (append_assoc ps (piece path (u32 part_idx) total_parts c ∷ [])
          (parts_from path (part_idx + 1) total_parts cs))
        rest

  less_room : (w : Packing) (room : ℕ) → IsPacking is_utf8 w (suc room) → IsPacking is_utf8 w room
  less_room w room v = record {
    id_fits = v.id_fits;
    valid = v.valid;
    within = v.within;
    bounded = v.bounded;
    few = omega (arith, v.few);
    empty_together = v.empty_together;
  }

  pack_file-IsPacking :
      (path bytes : List ℕ) (room : ℕ) (w : Packing) (ps : List Piece)
      → IsPath is_utf8 path
      → IsPacking is_utf8 w (suc room)
      → Stands is_utf8 w ps
      → IsPacking is_utf8 (pack_file (path, bytes) w) room
        × Stands is_utf8 (pack_file (path, bytes) w) (ps ++ parts_of (path, bytes))
  unfolding pack_file
  pack_file-IsPacking path bytes room w ps ok v h =
      let (v', h', no_entries, no_payload) = flush-Flushed is_utf8 w (suc room) ps v h in
      let empty : length (flush w).payload ≡ 0 = ap (λ (t : List ℕ). length t) no_payload in
      elim (Bool-cases (ltb block_size (length bytes))) [
        | inl large ↦
            let cs = split_fuel (length bytes) bytes in
            let (v'', h'', _, _) =
              push_parts-Flushed path (part_count bytes) 0 (suc room) cs (flush w) ps ok
                (omega arith) (split_fuel-Sized (length bytes) bytes)
                (v', h', no_entries, no_payload) in
            rw large (less_room _ room v'', h'')
        | inr small ↦ elim (Bool-cases (ltb block_size (length w.payload + length bytes))) [
          | inl over ↦
              rw (small, over)
                (accumulate-IsPacking is_utf8 (flush w) room ps path bytes v' h' ok
                  (omega (arith, empty, ltb→ge _ _ small)))
          | inr fits ↦
              rw (small, fits)
                (accumulate-IsPacking is_utf8 w room ps path bytes v h ok (ltb→ge _ _ fits))
        ]
      ]

  pack_loop-IsPacking :
      (files : List File) (w : Packing) (ps : List Piece)
      → All (λ (file : File). IsPath is_utf8 file.0) files
      → IsPacking is_utf8 w (length files)
      → Stands is_utf8 w ps
      → IsPacking is_utf8 (pack_loop files w) 0
        × Stands is_utf8 (pack_loop files w) (ps ++ parts files)
  unfolding pack_loop
  pack_loop-IsPacking [] w ps ok v h = (v, subst (λ t. Stands is_utf8 w t) (sym (append-nil ps)) h)
  pack_loop-IsPacking ((path, bytes) ∷ files) w ps (one, ok) v h =
      let (v', h') = pack_file-IsPacking path bytes (length files) w ps one v h in
      let w' = pack_file (path, bytes) w in
      let (v'', h'') = pack_loop-IsPacking files w' (ps ++ parts_of (path, bytes)) ok v' h' in
      (
        v'',
        subst (λ t. Stands is_utf8 (pack_loop files w') t)
            (append_assoc ps (parts_of (path, bytes)) (parts files)) h'',
      )

  start-IsPacking :
      (room : ℕ)
      → room < 2 ^ 32
      → IsPacking is_utf8 start_packing room × Stands is_utf8 start_packing []
  unfolding start_packing
  start-IsPacking room fits = (
    record {
      id_fits = omega arith;
      valid = tt;
      within = tt;
      bounded = omega arith;
      few = omega arith;
      empty_together = λ _. refl;
    },
    ([], refl, refl),
  )

  pub packed :
      (files : List File)
      → length files < 2 ^ 32
      → All (λ (file : File). IsPath is_utf8 file.0) files
      → Unpacks is_utf8 (pack_files files) (parts files)
  unfolding pack_files
  packed files few ok =
      let (v0, h0) = start-IsPacking (length files) few in
      let (v, h) = pack_loop-IsPacking files start_packing [] ok v0 h0 in
      let w = pack_loop files start_packing in
      let (_, (done, blocks, split), no_entries, _) = flush-Flushed is_utf8 w 0 (parts files) v h in
      let all : parts files ≡ done =
        split
        ∙ ap (λ (t : List Piece). done ++ t) (pending-none (flush w) no_entries)
        ∙ append-nil done in
      subst (λ t. Unpacks is_utf8 (flush w).blocks t) (sym all) blocks

  -- The entries of all blocks that were packed, in order, are the files under their paths: whole
  -- ones, and those larger than a block as their numbered parts with the number of all parts. It
  -- holds for fewer than 2^32 files whose paths are UTF-8 and shorter than 2^16 bytes.
  pub unpack_parts-pack_files :
      (files : List File)
      → length files < 2 ^ 32
      → All (λ (file : File). IsPath is_utf8 file.0) files
      → unpack_parts is_utf8 (pack_files files) ≡ some (parts files)
  unpack_parts-pack_files files few ok =
      unpack_parts-Unpacks is_utf8 (pack_files files) (parts files) (packed files few ok)

  -- Unpacking all blocks that were packed gives every file in order under its path, those larger
  -- than a block as their parts in order, whatever the sizes are. It holds for fewer than 2^32
  -- files whose paths are UTF-8 and shorter than 2^16 bytes.
  pub unpack_all-pack_files :
      (files : List File)
      → length files < 2 ^ 32
      → All (λ (file : File). IsPath is_utf8 file.0) files
      → unpack_all is_utf8 (pack_files files) ≡ some (pieces files)
  unpack_all-pack_files files few ok =
      unpack_all-Unpacks is_utf8 (pack_files files) (parts files) (packed files few ok)
      ∙ ap some (plain_pieces-parts files)
