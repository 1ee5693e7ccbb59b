-- ===== src/Direct/Directory.antt =====
-- From the directory to the commands of the send task: crates/ioengine/src/reader.rs and
-- crates/ioengine/src/lib.rs.
use udpix.Base.{
  ℕ, suc, ◌^◌, ◌≤◌, ◌<◌, ◌≡◌, refl, sym, ap, ◌∙◌, true, false, ltb, arith, ge→ltb, lt→ltb, List, [],
  ◌∷◌, ◌++◌, Option, some, length, All, append_assoc, append-nil, Bool,
}
use udpix.Base.Bytes.{u64}
use udpix.Base.F64.{F64}
use udpix.Packer.Wire.{PackBlock}
use udpix.Packer.Pack.{File, pack_files}
use udpix.Packer.Blocks.{IsPath}
use udpix.Sender.State.{SenderCommand, send_chunk, shutdown}
use udpix.Receiver.State.{Receiver, Output, recv_batch}
use udpix.Receiver.Dispatch.{IsReceiver}
use udpix.Direct.Framing.{direct_payloads, reassemble}
use udpix.Direct.Stream.{Fits}
use udpix.Direct.Send.{Sending, send_task}
use udpix.Direct.Sent.{commands_of}
use udpix.Receiver.Transfer.{applied}
use udpix.Direct.Delivery.{direct_mode_lem}
use udpix.IoEngine.Reader.{
  Listing, Reading, collect_recursive, relative, push_file, gather, chunk_commands, reader_loop,
  returns, waits, stream_directory, send_directory,
}
use udpix.IoEngine.Writer.{WriterThread, receive_and_write}
use udpix.IoEngine.Parts.{IsHealthy}
use udpix.IoEngine.Written.{total_size, file_requests, block_bytes}

abbrev pub file_paths : List File → List (List ℕ)
file_paths [] = []
file_paths (file ∷ files) = file.0 ∷ file_paths files

-- The files under their paths below the root.
abbrev pub relative_files : List ℕ → List File → List File
relative_files root [] = []
relative_files root (file ∷ files) = (relative root file.0, file.1) ∷ relative_files root files

chunk_commands-of :
    (bs : List PackBlock) → chunk_commands bs ++ (shutdown ∷ []) ≡ commands_of (block_bytes bs)
chunk_commands-of [] = refl
chunk_commands-of (b ∷ bs) =
    ap (λ (cs : List SenderCommand). send_chunk b.bytes ∷ cs) (chunk_commands-of bs)

module _ (read : List ℕ → Option (List ℕ)) (root : List ℕ) where
  -- All files can be read, and this is what stands in them.
  abbrev pub Holds : List File → Type 0
  Holds files = All (λ (file : File). read file.0 ≡ some file.1) files

  length-relative_files : (files : List File) → length (relative_files root files) ≡ length files
  length-relative_files [] = refl
  length-relative_files (file ∷ files) = ap suc (length-relative_files files)

  length-file_paths : (files : List File) → length (file_paths files) ≡ length files
  length-file_paths [] = refl
  length-file_paths (file ∷ files) = ap suc (length-file_paths files)

  gather_lem :
      (files : List File) (s : Reading)
      → Holds files
      → (t : Reading) × (gather root
            (length (file_paths files))
            (reader_loop read (file_paths files))
            s
          ≡ some t)
        × (t.file_data ≡ s.file_data ++ relative_files root files)
  unfolding gather reader_loop
  gather_lem [] s h = (s, refl, sym (append-nil s.file_data))
  gather_lem (file ∷ files) s (one, h) =
      let (t, found, all) = gather_lem files (push_file root file.0 s file.1) h in
      (
        t,
        rw one found,
        all
            ∙ append_assoc s.file_data ((relative root file.0, file.1) ∷ [])
                (relative_files root files),
      )

  send_directory_lem :
      (listing : Listing) (files : List File)
      → collect_recursive listing [] ≡ some (file_paths files)
      → length files ≤ 1025
      → Holds files
      → send_directory read root listing
        ≡ returns (commands_of (block_bytes (pack_files (relative_files root files))))
  unfolding send_directory stream_directory
  send_directory_lem listing files walked few h =
      let (t, found, all) = gather_lem files (record { file_data = []; total_bytes = 0 }) h in
      let room : ltb 1025 (length (file_paths files)) ≡ false =
        ge→ltb _ _ (omega (arith, length-file_paths files)) in
      rw (walked, room, found)
        (ap (λ (cmds : List SenderCommand). returns cmds)
          (ap (λ (fs : List File). chunk_commands (pack_files fs) ++ (shutdown ∷ [])) all
            ∙ chunk_commands-of (pack_files (relative_files root files))))

  -- Nothing is sent where the requests do not fit.
  send_directory-waits :
      (listing : Listing) (paths : List (List ℕ))
      → collect_recursive listing [] ≡ some paths
      → 1025 < length paths
      → send_directory read root listing ≡ waits
  unfolding send_directory stream_directory
  send_directory-waits listing paths walked many =
      let full : ltb 1025 (length paths) ≡ true = lt→ltb _ _ many in rw (walked, full) refl

  module _ (f : F64) where
    open f use {Float}

    -- A directory sent in direct mode, from end to end, over a network that loses and reorders
    -- nothing: the files found below the root are read and packed, the send task sends them without
    -- a panic, the receiver of the session takes its datagrams and ends at the FIN, the reassembly
    -- makes blocks out of what it hands on, and from these the writer is given one request for each
    -- file, with its bytes, under its relative path in the output directory. It holds for at most 1025
    -- files, the number that the channels of the reader take, of less than 2^55 bytes each, that can all
    -- be read, with UTF-8 paths shorter than 2^16 bytes, where the blocks fit the length prefix and the
    -- datagrams, the numbers and the clocks 64 bits, and the writes succeed.
    pub directory_lem :
        (thread : WriterThread) (output_dir : List ℕ) (good : IsHealthy thread)
        (is_utf8 : List ℕ → Bool) (ts : ℕ → ℕ) (listing : Listing) (files : List File)
        (r : Receiver Float) (now_us : ℕ)
        → let found = relative_files root files in
          let blocks = block_bytes (pack_files found) in
          collect_recursive listing [] ≡ some (file_paths files)
          → Holds files
          → length files ≤ 1025
          → All (λ (file : File). IsPath is_utf8 file.0) found
          → All (λ (file : File). length file.1 < 2 ^ 55) found
          → All Fits blocks
          → length (direct_payloads blocks) < 2 ^ 64
          → ((k : ℕ) → ts k < 2 ^ 64)
          → now_us < 2 ^ 64
          → IsReceiver f r
          → r.session_id ≡ 1
          → (cmds : List SenderCommand) × (t : Sending) × (q : Receiver Float) × (outs : List
              Output)
            × (got : List (List ℕ)) × (send_directory read root listing ≡ returns cmds)
            × (send_task ts cmds ≡ some t)
            × (recv_batch f t.sent r now_us ≡ some (q, true, outs))
            × (reassemble (applied outs) [] ≡ some (got, []))
            × (receive_and_write thread output_dir is_utf8 got
                ≡ some (u64 (total_size found), file_requests output_dir found))
    directory_lem thread output_dir good is_utf8 ts listing files r now_us walked h few paths sizes
          fits room clock c v session =
        let found = relative_files root files in
        let blocks = block_bytes (pack_files found) in
        let fewer : length found < 2 ^ 32 = omega (arith, length-relative_files files) in
        let (t, q, outs, sent, received, cut, wrote) =
          direct_mode_lem f thread output_dir good is_utf8 ts found r now_us fewer paths sizes fits
            room clock c v session in
        (
          commands_of blocks,
          t,
          q,
          outs,
          blocks,
          send_directory_lem listing files walked few h,
          sent,
          received,
          cut,
          wrote,
        )
