-- ===== src/Packer/Blocks.antt =====
-- What a receiver unpacks from all blocks together (crates/ioengine/src/packer.rs).
use udpix.Base.{
  slice-append_within, drop-append_left, take_all, ℕ, suc, ◌+◌, ◌*◌, ◌^◌, ◌≤◌, ◌<◌, ◌≡◌, refl, sym,
  ap, ap₂, ◌∙◌, subst, Bool, true, ◌⊎◌, List, [], ◌∷◌, ◌++◌, Option, some, length, take, slice, All,
  All-append, length-append, ◌>>=◌, arith, inl, inr, append-nil, append_assoc,
}
use udpix.Base.Bytes.{to_le_bytes}
use udpix.Packer.Wire.{
  FileEntry, PackBlock, block_size, serialise_block, entry_bytes, manifest_bytes, unpack, paths,
  unpack_entries,
}
use udpix.Packer.Manifest.{IsEntry, Within, cut, unpack_entries-serialise_block}
use udpix.Packer.Pieces.{Piece, piece, plain_pieces}
use udpix.Packer.Pack.{File, Packing, push_block, flush_entries, flush, accumulate}

module _ (is_utf8 : List ℕ → Bool) where
  abbrev pub parts_in : List (FileEntry × List ℕ) → List Piece
  parts_in [] = []
  parts_in ((e, d) ∷ es) = piece e.path e.part_index e.total_parts d ∷ parts_in es

  -- What `unpack_entries` gives of all blocks in turn.
  abbrev pub unpack_parts : List PackBlock → Option (List Piece)
  unpack_parts [] = some []
  unpack_parts (b ∷ bs) =
      unpack_entries is_utf8 b >>= λ es. unpack_parts bs >>= λ rest. some (parts_in es ++ rest)

  -- What `unpack` gives of all blocks in turn.
  abbrev pub unpack_all : List PackBlock → Option (List File)
  unpack_all [] = some []
  unpack_all (b ∷ bs) = unpack is_utf8 b >>= λ p. unpack_all bs >>= λ rest. some (p ++ rest)

  -- The blocks unpack to these pieces, block by block.
  abbrev pub Unpacks : List PackBlock → List Piece → Type 0
  Unpacks [] ps = ps ≡ []
  Unpacks (b ∷ bs) ps =
      (es : List (FileEntry × List ℕ)) × (q : List Piece) × (unpack_entries is_utf8 b ≡ some es)
      × Unpacks bs q
      × (ps ≡ parts_in es ++ q)

  pub unpack_parts-Unpacks :
      (bs : List PackBlock) (ps : List Piece) → Unpacks bs ps → unpack_parts bs ≡ some ps
  unpack_parts-Unpacks [] ps h = ap some (sym h)
  unpack_parts-Unpacks (b ∷ bs) ps (es, q, first, more, split) =
      rw (first, unpack_parts-Unpacks bs q more) (ap some (sym split))

  paths-append :
      (es : List (FileEntry × List ℕ)) (q : List Piece)
      → paths is_utf8 es ++ plain_pieces q ≡ plain_pieces (parts_in es ++ q)
  paths-append [] q = refl
  paths-append ((e, d) ∷ es) q = ap (λ (t : List File). (e.path, d) ∷ t) (paths-append es q)

  pub unpack_all-Unpacks :
      (bs : List PackBlock) (ps : List Piece)
      → Unpacks bs ps
      → unpack_all bs ≡ some (plain_pieces ps)
  unfolding unpack
  unpack_all-Unpacks [] ps h = ap (λ (t : List Piece). some (plain_pieces t)) (sym h)
  unpack_all-Unpacks (b ∷ bs) ps (es, q, first, more, split) =
      rw (first, unpack_all-Unpacks bs q more)
        (ap some (paths-append es q ∙ ap (λ (t : List Piece). plain_pieces t) (sym split)))

  Unpacks-append :
      (bs : List PackBlock) (b : PackBlock) (ps : List Piece) (es : List (FileEntry × List ℕ))
      → Unpacks bs ps
      → unpack_entries is_utf8 b ≡ some es
      → Unpacks (bs ++ (b ∷ [])) (ps ++ parts_in es)
  Unpacks-append [] b ps es h g = (
    es,
    [],
    g,
    refl,
    ap (λ (t : List Piece). t ++ parts_in es) h ∙ sym (append-nil (parts_in es)),
  )
  Unpacks-append (x ∷ bs) b ps es (fs, q, first, more, split) g = (
    fs,
    q ++ parts_in es,
    first,
    Unpacks-append bs b q es more g,
    ap (λ (t : List Piece). t ++ parts_in es) split ∙ append_assoc (parts_in fs) q (parts_in es),
  )

  length-manifest_bytes :
      (es : List FileEntry)
      → All (IsEntry is_utf8) es
      → length (manifest_bytes es) ≤ length es * 65562
  unfolding manifest_bytes entry_bytes
  length-manifest_bytes [] v = omega arith
  length-manifest_bytes (e ∷ es) (one, v) =
      let fields =
        to_le_bytes 8 e.offset
        ++ (to_le_bytes 8 e.size ++ (to_le_bytes 4 e.part_index ++ to_le_bytes 4 e.total_parts)) in
      omega (
        arith,
        one.path_fits,
        length-manifest_bytes es v,
        length-append (entry_bytes e) (manifest_bytes es),
        length-append e.path fields,
      )

  length-serialise_block :
      (block_id : ℕ) (es : List FileEntry) (payload : List ℕ)
      → length (serialise_block block_id es payload)
        ≡ 18 + (length (manifest_bytes es) + length payload)
  unfolding serialise_block
  length-serialise_block block_id es payload =
      omega (arith, length-append (manifest_bytes es) payload)

  pub push_block-Unpacks :
      (w : Packing) (es : List FileEntry) (payload : List ℕ) (done : List Piece)
      → w.block_id < 2 ^ 64
      → length es < 2 ^ 32
      → All (IsEntry is_utf8) es
      → All (Within is_utf8 payload) es
      → length payload ≤ block_size
      → Unpacks w.blocks done
      → Unpacks (push_block w es payload).blocks (done ++ parts_in (cut is_utf8 payload es))
  unfolding push_block
  push_block-Unpacks w es payload done fits few v within bounded h =
      let small : length (serialise_block w.block_id es payload) < 2 ^ 64 =
        omega (arith, length-serialise_block w.block_id es payload, length-manifest_bytes es v) in
      let back =
        unpack_entries-serialise_block is_utf8 w.block_id es payload fits few v within small in
      Unpacks-append w.blocks _ done (cut is_utf8 payload es) h back

  -- What the accumulators hold, where `room` more entries fit a block.
  pub record IsPacking (w : Packing) (room : ℕ) : Type 0 where
    pub id_fits : w.block_id < 2 ^ 64
    pub valid : All (IsEntry is_utf8) w.entries
    pub within : All (Within is_utf8 w.payload) w.entries
    pub bounded : length w.payload ≤ block_size
    pub few : length w.entries + room < 2 ^ 32
    pub empty_together : w.entries ≡ [] → w.payload ≡ []

  abbrev pub pending : Packing → List Piece
  pending w = parts_in (cut is_utf8 w.payload w.entries)

  -- The files that the blocks and the accumulators stand for.
  abbrev pub Stands : Packing → List Piece → Type 0
  Stands w ps = (done : List Piece) × Unpacks w.blocks done × (ps ≡ done ++ pending w)

  -- The state after a flush.
  abbrev pub Flushed : ℕ → List Piece → Packing → Type 0
  Flushed room ps w = IsPacking w room × Stands w ps × (w.entries ≡ []) × (w.payload ≡ [])

  emptied : Packing → Packing
  emptied w = record (push_block w w.entries w.payload) { entries = []; payload = [] }

  flush-cases : (w : Packing) → ((flush w ≡ w) × (w.entries ≡ [])) ⊎ (flush w ≡ emptied w)
  unfolding flush emptied
  flush-cases w = go w.entries refl
    where
      go :
          (es : List FileEntry)
          → w.entries ≡ es
          → ((flush_entries w.entries w ≡ w) × (w.entries ≡ []))
            ⊎ (flush_entries w.entries w
                ≡ record (push_block w w.entries w.payload) { entries = []; payload = [] })
      go [] e = inl (ap (λ (t : List FileEntry). flush_entries t w) e, e)
      go (x ∷ es) e = inr (
          ap (λ (t : List FileEntry). flush_entries t w) e
          ∙ ap
              (λ (t : List FileEntry). record (push_block w t w.payload) {
                entries = [];
                payload = [];
              })
              (sym e))

  emptied-Flushed :
      (w : Packing) (room : ℕ) (ps : List Piece)
      → IsPacking w room
      → Stands w ps
      → Flushed room ps (emptied w)
  unfolding emptied push_block
  emptied-Flushed w room ps v (done, blocks, split) = (
    record {
      id_fits = omega arith;
      valid = tt;
      within = tt;
      bounded = omega arith;
      few = omega (arith, v.few);
      empty_together = λ _. refl;
    },
    (
      ps,
      subst (λ t. Unpacks (push_block w w.entries w.payload).blocks t) (sym split)
          (push_block-Unpacks w w.entries w.payload done v.id_fits (omega (arith, v.few)) v.valid
            v.within v.bounded blocks),
      sym (append-nil ps),
    ),
    refl,
    refl,
  )

  pub flush-Flushed :
      (w : Packing) (room : ℕ) (ps : List Piece)
      → IsPacking w room
      → Stands w ps
      → Flushed room ps (flush w)
  flush-Flushed w room ps v h = elim (flush-cases w) [
    | inl (same, none_left) ↦
        subst (Flushed room ps) (sym same) (v, h, none_left, v.empty_together none_left)
    | inr moved ↦ subst (Flushed room ps) (sym moved) (emptied-Flushed w room ps v h)
  ]

  cut-append_payload :
      (payload more : List ℕ) (es : List FileEntry)
      → All (Within is_utf8 payload) es
      → cut is_utf8 (payload ++ more) es ≡ cut is_utf8 payload es
  cut-append_payload payload more [] h = refl
  cut-append_payload payload more (e ∷ es) (one, h) =
      ap₂ (λ (d : List ℕ) (t : List (FileEntry × List ℕ)). (e, d) ∷ t)
        (slice-append_within payload more e.offset e.size one)
        (cut-append_payload payload more es h)

  parts_in-cut-append :
      (payload : List ℕ) (es : List FileEntry) (e : FileEntry)
      → parts_in (cut is_utf8 payload (es ++ (e ∷ [])))
        ≡ parts_in (cut is_utf8 payload es)
          ++ (piece e.path e.part_index e.total_parts (slice payload e.offset e.size) ∷ [])
  parts_in-cut-append payload [] e = refl
  parts_in-cut-append payload (x ∷ es) e =
      ap
        (λ (t : List Piece).
          piece x.path x.part_index x.total_parts (slice payload x.offset x.size) ∷ t)
        (parts_in-cut-append payload es e)

  Within-append :
      (payload more : List ℕ) (es : List FileEntry)
      → All (Within is_utf8 payload) es
      → All (Within is_utf8 (payload ++ more)) es
  Within-append payload more [] h = tt
  Within-append payload more (e ∷ es) (one, h) =
      (omega (arith, length-append payload more), Within-append payload more es h)

  -- A path that fits the wire format.
  abbrev pub IsPath : List ℕ → Type 0
  IsPath path = (is_utf8 path ≡ true) × (length path < 2 ^ 16)

  pending-accumulate :
      (w : Packing) (path bytes : List ℕ)
      → All (Within is_utf8 w.payload) w.entries
      → pending (accumulate path bytes w) ≡ pending w ++ (piece path 0 1 bytes ∷ [])
  unfolding accumulate
  pending-accumulate w path bytes within =
      let last : slice (w.payload ++ bytes) (length w.payload) (length bytes) ≡ bytes =
        ap (λ (t : List ℕ). take (length bytes) t)
          (drop-append_left w.payload bytes (length w.payload) refl)
        ∙ take_all bytes (length bytes) (omega arith) in
      parts_in-cut-append (w.payload ++ bytes) w.entries _
      ∙ ap₂ (λ (t : List (FileEntry × List ℕ)) (d : List ℕ). parts_in t ++ (piece path 0 1 d ∷ []))
          (cut-append_payload w.payload bytes w.entries within) last

  pub accumulate-IsPacking :
      (w : Packing) (room : ℕ) (ps : List Piece) (path bytes : List ℕ)
      → IsPacking w (suc room)
      → Stands w ps
      → IsPath path
      → length w.payload + length bytes ≤ block_size
      → IsPacking (accumulate path bytes w) room
        × Stands (accumulate path bytes w) (ps ++ (piece path 0 1 bytes ∷ []))
  unfolding accumulate
  accumulate-IsPacking w room ps path bytes v (done, blocks, split) (utf8, short) fits =
      let e : FileEntry = record {
        path = path;
        offset = length w.payload;
        size = length bytes;
        part_index = 0;
        total_parts = 1;
      } in
      let e_fits : IsEntry is_utf8 e = record {
        path_is_utf8 = utf8;
        path_fits = short;
        offset_fits = omega arith;
        size_fits = omega arith;
        part_fits = omega arith;
        parts_fit = omega arith;
      } in
      let size = length-append w.payload bytes in
      let count = length-append w.entries (e ∷ []) in
      (
        record {
          id_fits = v.id_fits;
          valid = All-append (IsEntry is_utf8) w.entries (e ∷ []) v.valid (e_fits, tt);
          within =
              All-append (Within is_utf8 (w.payload ++ bytes)) w.entries (e ∷ [])
                (Within-append w.payload bytes w.entries v.within) (omega (arith, size), tt);
          bounded = omega (arith, size);
          few = omega (arith, count, v.few);
          empty_together = λ h.
              let none_left : length (w.entries ++ (e ∷ [])) ≡ 0 =
                ap (λ (t : List FileEntry). length t) h in
              absurd (omega (arith, count));
        },
        (
          done,
          blocks,
          ap (λ (t : List Piece). t ++ (piece path 0 1 bytes ∷ [])) split
              ∙ append_assoc done (pending w) (piece path 0 1 bytes ∷ [])
              ∙ ap (λ (t : List Piece). done ++ t) (sym (pending-accumulate w path bytes v.within)),
        ),
      )
