-- ===== src/Direct/Sent.antt =====
-- What the send task sends (crates/cli/src/send.rs).
use udpix.Base.{
  ℕ, ◌+◌, ◌^◌, ◌<◌, ◌≡◌, refl, sym, ap, ◌∙◌, List, [], ◌∷◌, ◌++◌, some, length, replicate, All,
  arith, append-nil, append_assoc, length-append, All-append,
}
use udpix.Base.Bytes.{u64}
use udpix.Packet.{header_bytes, new_data, new_fin}
use udpix.Packet.RoundTrip.{write_to_blank}
use udpix.Sender.State.{SenderCommand, send_chunk, shutdown}
use udpix.Sender.Chunks.{chunks, IsChunk, chunks-IsChunk}
use udpix.Sender.Queued.{data_datagram_lem}
use udpix.Direct.Framing.{frame, direct_payloads}
use udpix.Direct.Send.{
  Sending, start_sending, send_payload, send_payloads, send_commands, send_fins, send_task,
}

-- The commands of `send_directory`: the blocks, and the end.
abbrev pub commands_of : List (List ℕ) → List SenderCommand
commands_of [] = shutdown ∷ []
commands_of (b ∷ bs) = send_chunk b ∷ commands_of bs

module _ (ts : ℕ → ℕ) where
  -- The datagrams of payloads under consecutive numbers.
  abbrev pub data_packets : ℕ → List (List ℕ) → List (List ℕ)
  data_packets n [] = []
  data_packets n (c ∷ cs) =
      (header_bytes (new_data 1 n (ts n) (length c)) ++ c) ∷ data_packets (n + 1) cs

  data_packets-append :
      (n k : ℕ) (cs ds : List (List ℕ))
      → k ≡ n + length cs
      → data_packets n (cs ++ ds) ≡ data_packets n cs ++ data_packets k ds
  data_packets-append n k [] ds h = ap (λ (t : ℕ). data_packets t ds) (omega arith)
  data_packets-append n k (c ∷ cs) ds h =
      ap (λ (t : List (List ℕ)). (header_bytes (new_data 1 n (ts n) (length c)) ++ c) ∷ t)
        (data_packets-append (n + 1) k cs ds (omega arith))

  -- The task after some payloads.
  abbrev HasSent : Sending → List (List ℕ) → Sending → Type 0
  HasSent s cs t = (t.seq ≡ s.seq + length cs) × (t.sent ≡ s.sent ++ data_packets s.seq cs)

  send_payloads_lem :
      (cs : List (List ℕ)) (s : Sending)
      → All IsChunk cs
      → s.seq + length cs < 2 ^ 64
      → (t : Sending) × (send_payloads ts cs s ≡ some t) × HasSent s cs t
  unfolding send_payloads send_payload
  send_payloads_lem [] s sized room = (s, refl, (omega arith, sym (append-nil s.sent)))
  send_payloads_lem (c ∷ cs) s ((positive, small), sized) room =
      let pkt = header_bytes (new_data 1 s.seq (ts s.seq) (length c)) ++ c in
      let s' : Sending = record s {
        sent = s.sent ++ (pkt ∷ []);
        seq = u64 (s.seq + 1);
        bytes_sent = u64 (s.bytes_sent + length c);
      } in
      let next : u64 (s.seq + 1) ≡ s.seq + 1 = omega arith in
      let (t, found, (numbers, sent)) = send_payloads_lem cs s' sized (omega arith) in
      (
        t,
        rw (data_datagram_lem 1 s.seq (ts s.seq) c (omega arith)) found,
        (
          omega (arith, numbers),
          sent
              ∙ ap (λ (n : ℕ). (s.sent ++ (pkt ∷ [])) ++ data_packets n cs) next
              ∙ append_assoc s.sent (pkt ∷ []) (data_packets (s.seq + 1) cs),
        ),
      )

  pub direct_payloads-IsChunk : (blocks : List (List ℕ)) → All IsChunk (direct_payloads blocks)
  unfolding direct_payloads
  direct_payloads-IsChunk [] = tt
  direct_payloads-IsChunk (b ∷ bs) =
      All-append IsChunk (chunks (frame b)) (direct_payloads bs) (chunks-IsChunk (frame b))
        (direct_payloads-IsChunk bs)

  send_commands_lem :
      (blocks : List (List ℕ)) (s : Sending)
      → s.seq + length (direct_payloads blocks) < 2 ^ 64
      → (t : Sending) × (send_commands ts (commands_of blocks) s ≡ some t)
        × HasSent s (direct_payloads blocks) t
  unfolding send_commands direct_payloads
  send_commands_lem [] s room = (s, refl, (omega arith, sym (append-nil s.sent)))
  send_commands_lem (b ∷ bs) s room =
      let cs = chunks (frame b) in
      let ds = direct_payloads bs in
      let size = length-append cs ds in
      let (u, first, (n, out)) =
        send_payloads_lem cs s (chunks-IsChunk (frame b)) (omega (arith, size)) in
      let (t, found, (k, all)) = send_commands_lem bs u (omega (arith, size, n)) in
      (
        t,
        rw first found,
        (
          omega (arith, size, n, k),
          all
              ∙ ap (λ (xs : List (List ℕ)). xs ++ data_packets u.seq ds) out
              ∙ append_assoc s.sent (data_packets s.seq cs) (data_packets u.seq ds)
              ∙ ap (λ (xs : List (List ℕ)). s.sent ++ xs)
                  (sym (data_packets-append s.seq u.seq cs ds n)),
        ),
      )

  abbrev pub fin_packet : ℕ → List ℕ
  fin_packet n = header_bytes (new_fin 1 n (ts n))

  pub send_task_lem :
      (blocks : List (List ℕ))
      → length (direct_payloads blocks) < 2 ^ 64
      → (t : Sending) × (send_task ts (commands_of blocks) ≡ some t)
        × (t.sent
            ≡ data_packets 0 (direct_payloads blocks)
              ++ replicate 5 (fin_packet (length (direct_payloads blocks))))
  unfolding send_task send_fins start_sending
  send_task_lem blocks room =
      let cs = direct_payloads blocks in
      let (t, found, (n, all)) = send_commands_lem blocks start_sending (omega arith) in
      let h = new_fin 1 t.seq (ts t.seq) in
      let number : t.seq ≡ length cs = omega (arith, n) in
      let out : Sending = record t { sent = t.sent ++ replicate 5 (header_bytes h) } in
      (
        out,
        rw (found, write_to_blank h 0, append-nil (header_bytes h)) refl,
        ap (λ (k : ℕ). t.sent ++ replicate 5 (fin_packet k)) number
            ∙ ap (λ (xs : List (List ℕ)). xs ++ replicate 5 (fin_packet (length cs))) all,
      )
