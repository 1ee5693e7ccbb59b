-- ===== src/Lib.antt =====
-- UDPIX, a file transfer over lossy networks.
--
-- A sender cuts blocks into datagrams, keeps each until it is acknowledged, and paces what it sends
-- by a token bucket whose rate a bandwidth profiler picks. A receiver takes datagrams, hands their
-- payload on, and answers with a bitmap of what has arrived, its heartbeat SACK, and with pongs that
-- feed the RTT estimators of the sender. The direct mode of the command line frames blocks in that
-- byte stream. The reader collects the files of a directory, the packer makes blocks out of them, and
-- the writer puts files together from the blocks that arrive. The control plane logs users in and
-- keeps the registry of sessions. NAT traversal finds the public address of a socket (STUN), tries the
-- pairs of addresses that may reach the peer (ICE), and falls back to a relay (TURN).
--
-- Files and code (paths are from the root of the repository)
--   Base      numbers, lists, bytes, bits and the 64-bit floats that the parts share.
--   Packet    crates/protocol/src/packet.rs: the header, its constructors, flags, write_to, read_from.
--   Sack      crates/protocol/src/sack.rs. Payload has SackPayload with mark_received, is_received,
--             advance_base and missing_seqs; Wire has serialise and deserialise; Manager has
--             SackManager with on_packet_received and tick. Flags, Window, Mark, Advance, Missing,
--             Arrivals and History are about them.
--   Session   crates/protocol/src/session.rs: SessionStats; handle_pong of sender.rs feeds it.
--   Congestion  crates/protocol/src/congestion.rs. Bucket has TokenBucket; Profiler has
--             BandwidthProfiler. Ladder is about one step of it, Runs about many.
--   Sender    crates/protocol/src/sender.rs. Chunks, State and Enqueue have enqueue_data; Ack, Gaps
--             and Process have process_sack; Batch has send_batch with send_batch_sendmmsg; Loop has
--             the loop of run. InBatch bounds a batch, Coverage, Rounds and NoLoss follow each packet
--             through any run of the loop.
--   Receiver  crates/protocol/src/receiver.rs. State has the handlers of process_datagram,
--             send_heartbeat_sack and recv_batch, Loop the loop of run, and Heartbeat, Dispatch and Runs
--             are about them. Transfer joins it to enqueue_data of the sender, leaving open which of
--             the stored datagrams send_batch sends when; Probe joins it to send_ping.
--   Direct    crates/cli/src/send.rs and crates/cli/src/receive.rs, run_direct: Framing has the length
--             prefixes and the accumulator, Send the send task. Stream and Sent are about them;
--             Delivery and Directory join them to the receiver, the packer, the reader and the writer;
--             Unframed is about run_rudp, which has no frames.
--   Packer    crates/ioengine/src/packer.rs. Wire has serialise and unpack_entries, Pack has
--             pack_files. Manifest is about one block, Blocks, Pieces and AllFiles about all of them.
--   IoEngine  crates/ioengine/src. Reader has reader.rs and send_directory of lib.rs, Writer has
--             writer.rs. ReadLoop and WriteLoop are about the loops over the kernel, Parts and
--             Reassembly about split files, Written joins the writer to the packer. Submission has
--             the channels between stream_directory and the reader thread: what they hold bounds
--             stream_directory, which waits for ever with more files. ZeroCopy has splice_copy of
--             zerocopy.rs, Spliced is about it.
--   Traversal crates/traversal/src. Address and Stun have stun.rs, Turn and TurnClient turn.rs, Ice
--             ice.rs, Punch holepunch.rs. Messages and Masked are about the wire formats, Discover
--             about the STUN client, Signed, Allocate, Grants and Channels about the TURN client,
--             Priorities, Pairs, CheckList and Attempts about ICE and the hole puncher.
--   Control   crates/controlplane/src: Sessions has session_mgr.rs and policy.rs, Auth has auth.rs,
--             Service has the handlers of server.rs. Registry and Login are about them.
--
-- How the model stands for the code. A struct is a record, a method a function from the old record to
-- the new one with what it returns and sends. The in-flight map of the sender and the hash maps of the
-- control plane are association lists; the bitmap of a SACK is a list of words. Machine arithmetic
-- that wraps is written out by u16, u32 and u64. Atomics are fields, and a method is one step. An
-- association list stands for one order in which the code's hash map is iterated, which the code leaves
-- open: a theorem holds for each list, or says what the order is. The
-- loops of the sender and the receiver are folds over the events that select! delivers, in any order.
--
-- Parameters. The floats are an interface of operations with the few laws that a theorem names. The
-- clock, the random bytes and the identifiers are arguments. sendmmsg is a function from the batch to
-- what the kernel sent, PBKDF2 and the token library are functions of a record, and so are MD5 and
-- HMAC-SHA1; the UTF-8 check of paths is a function. What a socket receives after it has sent a message
-- is a function of the message, its target, and for ICE the targets queried before. The writer thread
-- is a record: which requests it takes, what the polls and what the last waits find. The listing of a
-- directory, what stands in its files, and how many bytes the kernel reads or writes at each call of
-- the io_uring loops and of splice are arguments as well.
--
-- Bounds and fuel. advance_base moves its base word by word and bit by bit without fuel. The search
-- for the first missing packet runs on the window and one more step, which is enough since the
-- packets behind the window have not arrived, as long as the window ends below 2^64; a window that
-- reaches that end, where the loop of the code wraps around and does not stop, is not modelled. Cutting bytes into chunks, cutting a large file into
-- parts, extracting blocks from the accumulator and reading STUN attributes run on the length of the
-- bytes, as each round takes at least one of them. The poll of the writer runs on the writes in flight.
-- The io_uring loops run on a number of rounds, after which they are still running; the bytes of the
-- file are rounds enough where every call moves at least one byte. The capacities of the channels are
-- those of the code, 512 requests and 512 results.
--
-- Not modelled: the creation of sockets and threads, opening files, the waits, the buffer pool and
-- recvmmsg, sendfile, the handshake over TCP before a direct transfer, the TLS server builder and the
-- reaper task, and the parsing of arguments. They are input and output, or are start-up code.
pub mod Base
pub mod Packet
pub mod Sack
pub mod Session
pub mod Congestion
pub mod Sender
pub mod Receiver
pub mod Direct
pub mod Control
pub mod Packer
pub mod Traversal
pub mod IoEngine
