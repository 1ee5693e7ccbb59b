-- ===== src/Direct/Tests.antt =====
-- The theorems on the direct mode at concrete inputs.
use udpix.Base.{
  none, replicate, Option, ℕ, ◌≡◌, ◌<◌, ◌^◌, refl, List, [], ◌∷◌, Bool, true, some, take, drop,
  length, All, arith, inl,
}
use udpix.Base.F64.{fixed}
use udpix.Session.{new_stats}
use udpix.Sack.Advance.{starting_at-IsPayload}
use udpix.Sack.Manager.{new}
use udpix.Packer.Wire.{serialise_block, manifest_bytes, entry_bytes}
use udpix.Packer.Pack.{
  File, start_packing, push_block, flush, accumulate, pack_file, pack_loop, pack_files,
}
use udpix.Sender.Chunks.{chunks, chunks_fuel}
use udpix.Receiver.State.{Receiver, Output, new_receiver, recv_batch}
use udpix.Receiver.Dispatch.{IsReceiver}
use udpix.Direct.Framing.{frame, direct_payloads, reassemble}
use udpix.Direct.Stream.{Fits, frames, reassemble_lem}
use udpix.Direct.Send.{Sending, send_task}
use udpix.Receiver.Transfer.{applied}
use udpix.Direct.Directory.{directory_lem}
use udpix.Direct.Unframed.{unframed_lem}
use udpix.IoEngine.Reader.{
  Listing, no_more, regular_file, directory, other_entry, collect_recursive, relative,
  send_directory, returns,
}
use udpix.Sender.State.{SenderCommand}
use udpix.IoEngine.Writer.{WriteRequest, WriterThread, written, join, receive_and_write}
use udpix.IoEngine.Parts.{IsHealthy}
use udpix.IoEngine.Written.{block_bytes}

abbrev two_blocks : List (List ℕ)
two_blocks = (1 ∷ 2 ∷ []) ∷ (3 ∷ []) ∷ []

-- The stream cut inside the prefix of the second block.
abbrev cut_stream : List (List ℕ)
cut_stream = take 13 (frames two_blocks) ∷ [] ∷ drop 13 (frames two_blocks) ∷ []

reassemble_lem_example : reassemble cut_stream [] ≡ some (two_blocks, [])
unfolding frame
reassemble_lem_example = reassemble_lem two_blocks cut_stream (omega arith, (omega arith, tt)) refl

abbrev any_bytes : List ℕ → Bool
any_bytes path = true

abbrev prompt_thread : WriterThread
prompt_thread = record { accepts = λ req. true; polled = λ k. written; drained = λ k. some true }

prompt_thread-IsHealthy : IsHealthy prompt_thread
prompt_thread-IsHealthy = record {
  accepts_all = λ req. refl;
  no_failure = λ k. inl refl;
  drains = λ k. refl;
}

abbrev one_file : List File
one_file = (97 ∷ [], 1 ∷ 2 ∷ []) ∷ []

abbrev its_blocks : List (List ℕ)
its_blocks = block_bytes (pack_files one_file)

its_blocks-Fits : All Fits its_blocks
unfolding pack_files pack_loop pack_file start_packing accumulate flush push_block serialise_block
    manifest_bytes entry_bytes
its_blocks-Fits = (omega arith, tt)

few_payloads : length (direct_payloads its_blocks) < 2 ^ 64
unfolding pack_files pack_loop pack_file start_packing accumulate flush push_block serialise_block
    manifest_bytes entry_bytes direct_payloads frame chunks chunks_fuel
few_payloads = omega arith

abbrev waiting : Receiver ℕ
waiting = new_receiver fixed 1 0 new_stats

waiting-IsReceiver : IsReceiver fixed waiting
unfolding new_receiver new
waiting-IsReceiver = record {
  session_fits = omega arith;
  payload_fits = starting_at-IsPayload 0 (omega arith);
}

abbrev one_request : List WriteRequest
one_request = record { abs_path = b'd' ∷ b'/' ∷ 97 ∷ []; bytes = 1 ∷ 2 ∷ [] } ∷ []

abbrev read : List ℕ → Option (List ℕ)
read path = some (1 ∷ 2 ∷ [])

-- The file r/a below the root r.
abbrev found_file : List File
found_file = (b'r' ∷ b'/' ∷ 97 ∷ [], 1 ∷ 2 ∷ []) ∷ []

abbrev listing : Listing
listing = directory (other_entry no_more) (regular_file (b'r' ∷ b'/' ∷ 97 ∷ []) no_more)

directory_lem_example :
    (cmds : List SenderCommand) × (t : Sending) × (q : Receiver ℕ) × (outs : List Output)
    × (got : List (List ℕ)) × (send_directory read (b'r' ∷ []) listing ≡ returns cmds)
    × (send_task (λ k. 55) cmds ≡ some t)
    × (recv_batch fixed t.sent waiting 99 ≡ some (q, true, outs))
    × (reassemble (applied outs) [] ≡ some (got, []))
    × (receive_and_write prompt_thread (b'd' ∷ []) any_bytes got ≡ some (2, one_request))
unfolding join new_receiver collect_recursive relative
directory_lem_example =
    directory_lem read (b'r' ∷ []) fixed prompt_thread (b'd' ∷ []) prompt_thread-IsHealthy any_bytes
      (λ k. 55) listing found_file waiting 99 refl (refl, tt) (omega arith)
      ((refl, omega arith), tt) (omega arith, tt) its_blocks-Fits few_payloads (λ k. omega arith)
      (omega arith) waiting-IsReceiver refl

-- More bytes than one datagram takes.
abbrev many_bytes : List ℕ
many_bytes = replicate 1500 7

unframed_lem_example :
    (b first : List ℕ) × (rest : List (List ℕ)) × (block_bytes
        (pack_files ((97 ∷ [], many_bytes) ∷ []))
      ≡ b ∷ [])
    × (chunks b ≡ first ∷ rest)
    × (receive_and_write prompt_thread (b'd' ∷ []) any_bytes (first ∷ two_blocks) ≡ none)
unframed_lem_example =
    unframed_lem any_bytes prompt_thread (b'd' ∷ []) (97 ∷ []) many_bytes two_blocks
      (refl, omega arith) (omega arith) (omega arith) (omega arith)

-- A root may end with a slash.
relative_trimmed :
    (relative (b'r' ∷ b'/' ∷ []) (b'r' ∷ b'/' ∷ 97 ∷ []) ≡ 97 ∷ [])
    × (relative (b'/' ∷ []) (b'/' ∷ 97 ∷ []) ≡ 97 ∷ [])
    × (relative (b'r' ∷ []) (b'r' ∷ 97 ∷ []) ≡ b'r' ∷ 97 ∷ [])
unfolding relative
relative_trimmed = (refl, refl, refl)
