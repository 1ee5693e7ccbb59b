-- ===== src/Direct/Delivery.antt =====
-- The direct mode from the send task to the files that are written: crates/cli/src/send.rs,
-- crates/protocol/src/receiver.rs, crates/cli/src/receive.rs and crates/ioengine/src.
use udpix.Base.{
  ℕ, ◌+◌, ◌^◌, ◌<◌, ◌≡◌, refl, sym, ap, ◌∙◌, subst, Bool, true, false, List, [], ◌∷◌, ◌++◌, Option,
  some, length, replicate, All, arith, eq→==, append-nil, if◌then◌else◌,
}
use mathlib.Core.Option.{some-injective}
use udpix.Base.Bytes.{u64}
use udpix.Base.F64.{F64}
use udpix.Packet.{
  IsHeader, header_bytes, new_data, new_fin, read_from, is_data, is_ping, is_pong, is_fin,
}
use udpix.Packet.RoundTrip.{read_from-header_bytes}
use udpix.Packer.Pack.{File, pack_files}
use udpix.Packer.Blocks.{IsPath}
use udpix.Sender.Chunks.{IsChunk}
use udpix.Sender.Queued.{Carries, carries_lem}
use udpix.Sack.Manager.{tick}
use udpix.Receiver.State.{
  Receiver, Output, to_application, to_sender, to_wire, handle_fin, dispatch, process_datagram,
  recv_batch,
}
use udpix.Receiver.Heartbeat.{send_heartbeat_sack_lem}
use udpix.Receiver.Dispatch.{IsReceiver, process_datagram_lem}
use udpix.Receiver.Transfer.{applied, after_data, process_datagram-Carries}
use udpix.Direct.Framing.{direct_payloads, reassemble}
use udpix.Direct.Stream.{Fits, reassemble-direct_payloads}
use udpix.Direct.Send.{Sending, send_task}
use udpix.Direct.Sent.{
  commands_of, data_packets, fin_packet, direct_payloads-IsChunk, send_task_lem,
}
use udpix.IoEngine.Writer.{WriterThread, receive_and_write}
use udpix.IoEngine.Parts.{IsHealthy}
use udpix.IoEngine.Written.{total_size, file_requests, block_bytes, receive_and_write-pack_files}

new_fin-IsHeader : (seq ts : ℕ) → seq < 2 ^ 64 → ts < 2 ^ 64 → IsHeader (new_fin 1 seq ts)
unfolding new_fin
new_fin-IsHeader seq ts a b = record {
  session_id_fits = omega arith;
  sequence_number_fits = a;
  timestamp_us_fits = b;
  flags_fits = omega arith;
  payload_len_fits = omega arith;
  fec_group_id_fits = omega arith;
  fec_index_fits = omega arith;
  fec_group_size_fits = omega arith;
}

module _ (f : F64) where
  open f use {Float}

  -- The first FIN ends the session and hands nothing on.
  fin_lem :
      (r : Receiver Float) (seq ts now_us : ℕ) (bufs : List (List ℕ))
      → IsReceiver f r
      → r.session_id ≡ 1
      → seq < 2 ^ 64
      → ts < 2 ^ 64
      → now_us < 2 ^ 64
      → (q : Receiver Float) × (outs : List Output) × (recv_batch f
            (header_bytes (new_fin 1 seq ts) ∷ bufs)
            r
            now_us
          ≡ some (q, true, outs))
        × (applied outs ≡ [])
  unfolding recv_batch process_datagram dispatch handle_fin new_fin is_data is_ping is_pong is_fin
  fin_lem r seq ts now_us bufs v session a b c =
      let h = new_fin 1 seq ts in
      let parsed : read_from (header_bytes h) ≡ some h =
        ap read_from (sym (append-nil (header_bytes h)))
        ∙ read_from-header_bytes h [] (new_fin-IsHeader seq ts a b) in
      let (buf, sent, _) = send_heartbeat_sack_lem f r now_us v.session_fits c v.payload_fits in
      let wires : (b : Bool) → applied (if b then to_wire buf ∷ [] else []) ≡ [] = λ b.
        elim b as (λ k. applied (if k then to_wire buf ∷ [] else []) ≡ []) [
          | true ↦ refl
          | false ↦ refl
        ] in
      (
        record r { sack_mgr = tick f r.sack_mgr },
        to_sender r.sack_mgr.payload ∷ (if r.data_seen then to_wire buf ∷ [] else []),
        rw (parsed, eq→== 1 r.session_id (sym session), sent) refl,
        wires r.data_seen,
      )

  recv_batch-one :
      (r r' q : Receiver Float) (pkt d : List ℕ) (bufs : List (List ℕ)) (outs : List Output)
      (now_us : ℕ)
      → process_datagram f r pkt now_us ≡ some (r', some false, to_application d ∷ [])
      → recv_batch f bufs r' now_us ≡ some (q, true, outs)
      → recv_batch f (pkt ∷ bufs) r now_us ≡ some (q, true, to_application d ∷ outs)
  unfolding recv_batch
  recv_batch-one r r' q pkt d bufs outs now_us first rest = rw (first, rest) refl

  after_data-IsReceiver :
      (r r' : Receiver Float) (pkt : List ℕ) (now_us : ℕ) (res : Option Bool) (outs : List Output)
      → IsReceiver f r
      → now_us < 2 ^ 64
      → process_datagram f r pkt now_us ≡ some (r', res, outs)
      → IsReceiver f r'
  after_data-IsReceiver r r' pkt now_us res outs v c h =
      let (s, res', outs', found, kept, _, _, _, _) = process_datagram_lem f r pkt now_us v c in
      subst (IsReceiver f)
        (ap (λ (t : Receiver Float × Option Bool × List Output). t.0)
          (some-injective (s, res', outs') (r', res, outs) (sym found ∙ h)))
        kept

  -- All data packets of a session, and then its FINs.
  session_lem :
      (ts : ℕ → ℕ) (cs : List (List ℕ)) (n last now_us : ℕ) (bufs : List (List ℕ))
      (r : Receiver Float)
      → ((k : ℕ) → ts k < 2 ^ 64)
      → All IsChunk cs
      → IsReceiver f r
      → r.session_id ≡ 1
      → n + length cs < 2 ^ 64
      → last < 2 ^ 64
      → now_us < 2 ^ 64
      → (q : Receiver Float) × (outs : List Output) × (recv_batch f
            (data_packets ts n cs ++ (fin_packet ts last ∷ bufs))
            r
            now_us
          ≡ some (q, true, outs))
        × (applied outs ≡ cs)
  session_lem ts [] n last now_us bufs r clock sized v session room fits c =
      fin_lem r last (ts last) now_us bufs v session fits (clock last) c
  session_lem ts (d ∷ ds) n last now_us bufs r clock (one, sized) v session room fits c =
      let pkt = header_bytes (new_data 1 n (ts n) (length d)) ++ d in
      let r' = after_data f r n (length d) in
      let carries = carries_lem 1 n (ts n) d (omega arith) (omega arith) (clock n) (omega arith) in
      let first : process_datagram f r pkt now_us ≡ some (r', some false, to_application d ∷ []) =
        process_datagram-Carries f r n (ts n) now_us d pkt one
          (subst (λ id. Carries id n (ts n) d pkt) (sym session) carries) in
      let v' =
        after_data-IsReceiver r r' pkt now_us (some false) (to_application d ∷ []) v c first in
      let bufs' = data_packets ts (n + 1) ds ++ (fin_packet ts last ∷ bufs) in
      let (q, outs, rest, got) =
        session_lem ts ds (n + 1) last now_us bufs r' clock sized v' session (omega arith) fits c in
      (
        q,
        to_application d ∷ outs,
        recv_batch-one r r' q pkt d bufs' outs now_us first rest,
        ap (λ (xs : List (List ℕ)). d ∷ xs) got,
      )

  -- The direct mode over a network that loses and reorders nothing, from end to end: the send task
  -- sends the blocks of the files without a panic; the receiver of the session takes its datagrams
  -- and ends at the FIN; out of the payloads that it hands on the reassembly makes exactly the blocks;
  -- and from these the writer is given one request for each file with its bytes under its path in the
  -- output directory. It holds where the writes succeed, the numbers and clocks fit 64 bits, and for
  -- fewer than 2^32 files of less than 2^55 bytes with UTF-8 paths shorter than 2^16 bytes.
  pub direct_mode_lem :
      (thread : WriterThread) (output_dir : List ℕ) (good : IsHealthy thread)
      (is_utf8 : List ℕ → Bool) (ts : ℕ → ℕ) (files : List File) (r : Receiver Float) (now_us : ℕ)
      → let blocks = block_bytes (pack_files files) in
        length files < 2 ^ 32
        → All (λ (file : File). IsPath is_utf8 file.0) files
        → All (λ (file : File). length file.1 < 2 ^ 55) files
        → All Fits blocks
        → length (direct_payloads blocks) < 2 ^ 64
        → ((k : ℕ) → ts k < 2 ^ 64)
        → now_us < 2 ^ 64
        → IsReceiver f r
        → r.session_id ≡ 1
        → (t : Sending) × (q : Receiver Float) × (outs : List Output) × (send_task ts
              (commands_of blocks)
            ≡ some t)
          × (recv_batch f t.sent r now_us ≡ some (q, true, outs))
          × (reassemble (applied outs) [] ≡ some (blocks, []))
          × (receive_and_write thread output_dir is_utf8 blocks
              ≡ some (u64 (total_size files), file_requests output_dir files))
  direct_mode_lem thread output_dir good is_utf8 ts files r now_us few paths sizes fits room clock c
        v session =
      let blocks = block_bytes (pack_files files) in
      let cs = direct_payloads blocks in
      let (t, sent, wire) = send_task_lem ts blocks room in
      let (q, outs, received, got) =
        session_lem ts cs 0 (length cs) now_us (replicate 4 (fin_packet ts (length cs))) r clock
          (direct_payloads-IsChunk ts blocks) v session (omega arith) room c in
      (
        t,
        q,
        outs,
        sent,
        ap (λ (bufs : List (List ℕ)). recv_batch f bufs r now_us) wire ∙ received,
        ap (λ (xs : List (List ℕ)). reassemble xs []) got ∙ reassemble-direct_payloads blocks fits,
        receive_and_write-pack_files thread output_dir good is_utf8 files few paths sizes,
      )
