-- ===== src/Direct/Send.antt =====
-- The send task of `run_direct` in crates/cli/src/send.rs. The clock is read once for each packet: it is
-- an argument that gives the reading at a sequence number.
use udpix.Base.{ℕ, ◌+◌, List, [], ◌∷◌, ◌++◌, Option, some, length, replicate, ◌>>=◌}
use udpix.Base.Bytes.{u64}
use udpix.Packet.{header_size, new_fin, write_to}
use udpix.Sender.State.{SenderCommand, send_chunk, shutdown}
use udpix.Sender.Chunks.{chunks}
use udpix.Sender.Enqueue.{data_datagram}
use udpix.Direct.Framing.{frame}

-- The next sequence number, the number of bytes sent, and the datagrams sent so far.
pub record Sending : Type 0 where
  pub seq : ℕ
  pub bytes_sent : ℕ
  pub sent : List (List ℕ)

unfoldable pub start_sending : Sending
start_sending = record { seq = 0; bytes_sent = 0; sent = [] }

module _ (ts : ℕ → ℕ) where
  unfoldable pub send_payload : List ℕ → Sending → Option Sending
  send_payload chunk s = do
    pkt ← data_datagram 1 s.seq (ts s.seq) chunk
    some (record s {
      sent = s.sent ++ (pkt ∷ []);
      seq = u64 (s.seq + 1);
      bytes_sent = u64 (s.bytes_sent + length chunk);
    })

  unfoldable pub send_payloads : List (List ℕ) → Sending → Option Sending
  send_payloads [] s = some s
  send_payloads (c ∷ cs) s = send_payload c s >>= λ s'. send_payloads cs s'

  -- The loop over the commands.
  unfoldable pub send_commands : List SenderCommand → Sending → Option Sending
  send_commands [] s = some s
  send_commands (send_chunk block ∷ cmds) s =
      send_payloads (chunks (frame block)) s >>= λ s'. send_commands cmds s'
  send_commands (shutdown ∷ cmds) s = some s

  -- The FIN is sent five times.
  unfoldable pub send_fins : Sending → Option Sending
  send_fins s = do
    fin_buf ← write_to (new_fin 1 s.seq (ts s.seq)) (replicate header_size 0)
    some (record s { sent = s.sent ++ replicate 5 fin_buf })

  unfoldable pub send_task : List SenderCommand → Option Sending
  send_task cmds = send_commands cmds start_sending >>= λ s. send_fins s
