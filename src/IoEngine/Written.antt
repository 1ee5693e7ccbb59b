-- ===== src/IoEngine/Written.antt =====
-- From the packed blocks to the requests of the writer (crates/ioengine/src/writer.rs, crates/ioengine/src/packer.rs).
use udpix.Base.{
  ℕ, zero, suc, ◌+◌, ◌-◌, ◌/◌, ◌^◌, ◌≤◌, ◌<◌, ◌≡◌, refl, sym, ap, ap₂, ◌∙◌, subst, Bool, List, [],
  ◌∷◌, ◌++◌, Option, none, some, ltb, length, take, drop, All, arith, inl, inr, Bool-cases, ltb→lt,
  append-nil, append_assoc, ◌>>=◌, length-drop, take-append-drop,
}
use udpix.Base.Bytes.{u64}
use udpix.Packer.Wire.{FileEntry, PackBlock, block_size, unpack_entries}
use udpix.Packer.Pack.{File, split_fuel, part_count, pack_files}
use udpix.Packer.Pieces.{Piece, piece, parts_from, parts_of, parts}
use udpix.Packer.Blocks.{parts_in, Unpacks, IsPath}
use udpix.Packer.AllFiles.{packed}
use udpix.Sender.Chunks.{concat}
use udpix.IoEngine.Writer.{
  WriteRequest, WriterThread, Writing, join, start_writing, on_part, on_entries, drain_results,
  on_chunks, receive_and_write,
}
use udpix.IoEngine.Parts.{IsHealthy, Stands, request, then-Stands, whole-Stands}
use udpix.IoEngine.Reassembly.{on_parts, on_parts-append, rest-Stands}

concat-split_fuel : (n : ℕ) (xs : List ℕ) → length xs ≤ n → concat (split_fuel n xs) ≡ xs
unfolding split_fuel
concat-split_fuel zero [] h = refl
concat-split_fuel zero (x ∷ xs) h = absurd (omega arith)
concat-split_fuel (suc n) [] h = refl
concat-split_fuel (suc n) (x ∷ xs) h =
    ap (λ (t : List ℕ). take block_size (x ∷ xs) ++ t)
      (concat-split_fuel n (drop block_size (x ∷ xs))
        (omega (arith, length-drop block_size (x ∷ xs))))
    ∙ take-append-drop block_size (x ∷ xs)

length-split_fuel :
    (n : ℕ) (xs : List ℕ)
    → length xs ≤ n
    → length (split_fuel n xs) ≡ (length xs + (block_size - 1)) / block_size
unfolding split_fuel
length-split_fuel zero [] h = refl
length-split_fuel zero (x ∷ xs) h = absurd (omega arith)
length-split_fuel (suc n) [] h = refl
length-split_fuel (suc n) (x ∷ xs) h = omega (
  arith,
  length-drop block_size (x ∷ xs),
  length-split_fuel n (drop block_size (x ∷ xs)) (omega (arith, length-drop block_size (x ∷ xs))),
)

abbrev with_requests : ℕ → List WriteRequest → Option (ℕ × List WriteRequest)
with_requests n reqs = some (n, reqs)

abbrev outcome : Writing → ℕ × List WriteRequest
outcome w = (w.total_bytes, w.requests)

-- The bytes of the blocks, as they arrive.
abbrev pub block_bytes : List PackBlock → List (List ℕ)
block_bytes [] = []
block_bytes (b ∷ bs) = b.bytes ∷ block_bytes bs

-- The bytes of all files.
abbrev pub total_size : List File → ℕ
total_size [] = 0
total_size ((path, bytes) ∷ files) = length bytes + total_size files

module _ (output_dir : List ℕ) where
  -- One request for each file: its bytes under its path in the output directory.
  abbrev pub file_requests : List File → List WriteRequest
  file_requests [] = []
  file_requests ((path, bytes) ∷ files) =
      record { abs_path = join output_dir path; bytes = bytes } ∷ file_requests files

module _ (thread : WriterThread) (output_dir : List ℕ) (good : IsHealthy thread) where
  file-Stands :
      (path bytes : List ℕ) (w : Writing) (reqs : List WriteRequest) (total : ℕ)
      → length bytes < 2 ^ 55
      → Stands thread output_dir good reqs total [] (some w)
      → Stands thread output_dir good
          (reqs ++ (request thread output_dir good path bytes ∷ []))
          (u64 (total + length bytes))
          []
          (on_parts thread output_dir good (parts_of (path, bytes)) w)
  unfolding on_parts
  file-Stands path bytes w reqs total fits h = elim (Bool-cases (ltb block_size (length bytes))) [
    | inl large ↦
        let cs = split_fuel (length bytes) bytes in
        let count : length cs ≡ part_count bytes =
          omega (arith, length-split_fuel (length bytes) bytes (omega arith)) in
        let many : 1 < part_count bytes = omega (arith, ltb→lt _ _ large) in
        let out =
          rest-Stands thread output_dir good path (part_count bytes) cs [] w reqs total
            (omega (arith, count)) many (omega arith) (omega (arith, count, many)) h in
        let shape : parts_of (path, bytes) ≡ parts_from path 0 (part_count bytes) cs =
          rw large refl in
        subst
          (λ ps.
            Stands thread output_dir good (reqs ++ (request thread output_dir good path bytes ∷ []))
              (u64 (total + length bytes)) [] (on_parts thread output_dir good ps w))
          (sym shape)
          (subst
            (λ t.
              Stands thread output_dir good (reqs ++ (request thread output_dir good path t ∷ []))
                (u64 (total + length t)) []
                (on_parts thread output_dir good (parts_from path 0 (part_count bytes) cs) w))
            (concat-split_fuel (length bytes) bytes (omega arith)) out)
    | inr small ↦
        let reqs' = reqs ++ (request thread output_dir good path bytes ∷ []) in
        let total' : ℕ = u64 (total + length bytes) in
        let shape : parts_of (path, bytes) ≡ piece path 0 1 bytes ∷ [] = rw small refl in
        subst
          (λ ps.
            Stands thread output_dir good reqs' total' [] (on_parts thread output_dir good ps w))
          (sym shape)
          (then-Stands thread output_dir good (on_part thread output_dir path 0 1 bytes w)
            (λ u. some u) reqs' reqs' total' total' [] []
            (whole-Stands thread output_dir good path bytes 0 w reqs total [] h) (λ u g. g))
  ]

  files-Stands :
      (files : List File) (w : Writing) (reqs : List WriteRequest) (total : ℕ)
      → total < 2 ^ 64
      → All (λ (file : File). length file.1 < 2 ^ 55) files
      → Stands thread output_dir good reqs total [] (some w)
      → Stands thread output_dir good
          (reqs ++ file_requests output_dir files)
          (u64 (total + total_size files))
          []
          (on_parts thread output_dir good (parts files) w)
  unfolding on_parts
  files-Stands [] w reqs total small fits (r, t, p) =
      (r ∙ sym (append-nil reqs), t ∙ omega arith, p)
  files-Stands ((path, bytes) ∷ files) w reqs total small (one, fits) h =
      let one_more = reqs ++ (request thread output_dir good path bytes ∷ []) in
      let so_far : ℕ = u64 (total + length bytes) in
      let first = on_parts thread output_dir good (parts_of (path, bytes)) w in
      let last = reqs ++ file_requests output_dir ((path, bytes) ∷ files) in
      let size : ℕ = u64 (total + total_size ((path, bytes) ∷ files)) in
      let requests : one_more ++ file_requests output_dir files ≡ last =
        append_assoc reqs (request thread output_dir good path bytes ∷ [])
          (file_requests output_dir files) in
      let sizes : u64 (so_far + total_size files) ≡ size = omega arith in
      subst (λ o. Stands thread output_dir good last size [] o)
        (sym (on_parts-append thread output_dir good (parts_of (path, bytes)) (parts files) w))
        (then-Stands thread output_dir good first
          (λ u. on_parts thread output_dir good (parts files) u) one_more last so_far size [] []
          (file-Stands path bytes w reqs total one h)
          (λ u g.
            subst
              (λ n.
                Stands thread output_dir good last n []
                  (on_parts thread output_dir good (parts files) u))
              sizes
              (subst
                (λ rs.
                  Stands thread output_dir good rs (u64 (so_far + total_size files)) []
                    (on_parts thread output_dir good (parts files) u))
                requests (files-Stands files u one_more so_far (omega arith) fits g))))

  drained : (n k : ℕ) → drain_results thread output_dir n k ≡ some tt
  unfolding drain_results
  drained zero k = refl
  drained (suc n) k = rw (good.drains k) (drained n (k + 1))

  module _ (is_utf8 : List ℕ → Bool) where
    on_entries-on_parts :
        (es : List (FileEntry × List ℕ)) (w : Writing)
        → on_entries thread output_dir es w
          ≡ on_parts thread output_dir good (parts_in is_utf8 es) w
    unfolding on_entries on_parts
    on_entries-on_parts [] w = refl
    on_entries-on_parts ((e, d) ∷ es) w =
        go (on_part thread output_dir e.path e.part_index e.total_parts d w)
          (λ u. on_entries-on_parts es u)
      where
        go :
            (o : Option Writing)
            → ((u : Writing)
                → on_entries thread output_dir es u
                  ≡ on_parts thread output_dir good (parts_in is_utf8 es) u)
            → (o >>= λ u. on_entries thread output_dir es u)
              ≡ (o >>= λ u. on_parts thread output_dir good (parts_in is_utf8 es) u)
        go none ih = refl
        go (some u) ih = ih u

    on_chunks-on_parts :
        (bs : List PackBlock) (ps : List Piece) (w : Writing)
        → Unpacks is_utf8 bs ps
        → on_chunks thread output_dir is_utf8 (block_bytes bs) w
          ≡ on_parts thread output_dir good ps w
    unfolding on_chunks on_parts unpack_entries
    on_chunks-on_parts [] ps w h =
        ap (λ (t : List Piece). on_parts thread output_dir good t w) (sym h)
    on_chunks-on_parts (b ∷ bs) ps w (es, q, first, more, split) =
        let read : unpack_entries is_utf8 (record { id = 0; bytes = b.bytes }) ≡ some es = first in
        rw read (
          go (on_entries thread output_dir es w) (λ u. on_chunks-on_parts bs q u more)
          ∙ ap (λ (o : Option Writing). o >>= λ u. on_parts thread output_dir good q u)
              (on_entries-on_parts es w)
          ∙ sym (on_parts-append thread output_dir good (parts_in is_utf8 es) q w)
          ∙ ap (λ (t : List Piece). on_parts thread output_dir good t w) (sym split))
      where
        go :
            (o : Option Writing)
            → ((u : Writing)
                → on_chunks thread output_dir is_utf8 (block_bytes bs) u
                  ≡ on_parts thread output_dir good q u)
            → (o >>= λ u. on_chunks thread output_dir is_utf8 (block_bytes bs) u)
              ≡ (o >>= λ u. on_parts thread output_dir good q u)
        go none ih = refl
        go (some u) ih = ih u

    -- The writer is handed all files of the blocks: for each file, in order, one request with exactly
    -- its bytes under its path in the output directory, also where the file came as parts in many
    -- blocks; and it returns the number of all bytes. It holds where the writes succeed, for fewer
    -- than 2^32 files of less than 2^55 bytes whose paths are UTF-8 and shorter than 2^16 bytes.
    pub receive_and_write-pack_files :
        (files : List File)
        → length files < 2 ^ 32
        → All (λ (file : File). IsPath is_utf8 file.0) files
        → All (λ (file : File). length file.1 < 2 ^ 55) files
        → receive_and_write thread output_dir is_utf8 (block_bytes (pack_files files))
          ≡ some (u64 (total_size files), file_requests output_dir files)
    unfolding receive_and_write start_writing
    receive_and_write-pack_files files few ok sizes =
        finish (on_chunks thread output_dir is_utf8 (block_bytes (pack_files files)) start_writing)
          (subst
            (Stands thread output_dir good (file_requests output_dir files)
              (u64 (0 + total_size files)) [])
            (sym (
              on_chunks-on_parts (pack_files files) (parts files) start_writing
                (packed is_utf8 files few ok)))
            (files-Stands files start_writing [] 0 (omega arith) sizes (refl, refl, refl)))
      where
        finish :
            (o : Option Writing)
            → Stands thread output_dir good
                (file_requests output_dir files)
                (u64 (0 + total_size files))
                []
                o
            → (o >>= λ w. drain_results thread output_dir w.in_flight 0 >>= λ _. some (outcome w))
              ≡ some (u64 (total_size files), file_requests output_dir files)
        finish none h = absurd h
        finish (some w) (r, t, p) =
            rw (drained w.in_flight 0) (ap₂ with_requests (t ∙ omega arith) r)
