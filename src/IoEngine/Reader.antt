-- ===== src/IoEngine/Reader.antt =====
-- crates/ioengine/src/reader.rs and send_directory of crates/ioengine/src/lib.rs. What the file system
-- and the kernel answer is a parameter. An error is `none`,
-- and `fails` where a call may also wait for ever.
use udpix.Base.{
  ℕ, zero, suc, ◌+◌, ◌-◌, ◌*◌, min, Bool, true, List, [], ◌∷◌, ◌++◌, Option, none, some, ltb, ◌==◌,
  if◌then◌else◌, length, take, drop, replicate, ◌>>=◌,
}
use udpix.Base.Bytes.{u64}
use udpix.Control.Table.{same_text}
use udpix.Packer.Wire.{PackBlock}
use udpix.Packer.Pack.{File, pack_files}
use udpix.Sender.State.{SenderCommand, send_chunk, shutdown}

abbrev pub read_chunk : ℕ
read_chunk = 65536

abbrev pub queue_depth : ℕ
queue_depth = 256

-- The capacity of the channel of requests, and of that of results.
abbrev pub channel_bound : ℕ
channel_bound = queue_depth * 2

-- The end of a loop that waits for the kernel: a result, an error, or not yet.
pub data Progress (A : Type 0) : Type 0 where
  finished : A → Progress A
  failed : Progress A
  running : Progress A

-- The bytes that the kernel puts into a buffer, or into a file.
abbrev pub overwrite : ℕ → List ℕ → List ℕ → List ℕ
overwrite offset bytes buf = take offset buf ++ (bytes ++ drop (offset + length bytes) buf)

abbrev pub after_read : Option (List ℕ) → (List ℕ → Progress (List ℕ)) → Progress (List ℕ)
after_read none rest = failed
after_read (some bytes) rest = rest bytes

-- `reads` has the number of the read, its offset and its length; the kernel answers with the bytes
-- that it read, or with an error.
module _ (reads : ℕ → ℕ → ℕ → Option (List ℕ)) where
  unfoldable pub read_loop : ℕ → ℕ → ℕ → ℕ → List ℕ → Progress (List ℕ)
  read_loop zero k file_len offset buf = if ltb offset file_len then running else finished buf
  read_loop (suc n) k file_len offset buf =
      let chunk = min (file_len - offset) read_chunk in
      let rest = after_read (reads k offset chunk) (λ bytes.
        read_loop n (k + 1) file_len (offset + length bytes) (overwrite offset bytes buf)) in
      if ltb offset file_len then rest else finished buf

  -- The fuel is the number of rounds that are looked at.
  unfoldable pub read_file : ℕ → ℕ → Progress (List ℕ)
  read_file fuel file_len = read_loop fuel 0 file_len 0 (replicate file_len 0)

-- The listing of a directory: its entries, one after the other; a directory is listed in place.
pub data Listing : Type 0 where
  no_more : Listing
  regular_file : List ℕ → Listing → Listing
  directory : Listing → Listing → Listing
  other_entry : Listing → Listing
  unreadable : Listing

unfoldable pub collect_recursive : Listing → List (List ℕ) → Option (List (List ℕ))
collect_recursive no_more out = some out
collect_recursive (regular_file path rest) out = collect_recursive rest (out ++ (path ∷ []))
collect_recursive (directory sub rest) out =
    collect_recursive sub out >>= λ out'. collect_recursive rest out'
collect_recursive (other_entry rest) out = collect_recursive rest out
collect_recursive unreadable out = none

pub record ReadResult : Type 0 where
  pub path : List ℕ
  pub bytes : Option (List ℕ)

abbrev pub skip_slashes : List ℕ → List ℕ
skip_slashes [] = []
skip_slashes (x ∷ xs) = let rest = skip_slashes xs in if x == b'/' then rest else x ∷ xs

abbrev pub at_boundary : List ℕ → Bool
at_boundary [] = true
at_boundary (x ∷ xs) = x == b'/'

abbrev pub before_slash : ℕ → List ℕ → List ℕ
before_slash x [] = if x == b'/' then [] else x ∷ []
before_slash x (y ∷ ys) = x ∷ y ∷ ys

-- A path without the slashes at its end.
abbrev pub trim_slashes : List ℕ → List ℕ
trim_slashes [] = []
trim_slashes (x ∷ xs) = before_slash x (trim_slashes xs)

-- `strip_prefix`, with `unwrap_or`. The paths of the walk are the root, as it is written, a slash if it
-- does not end with one, and what follows, so that components are compared as texts.
unfoldable pub relative : List ℕ → List ℕ → List ℕ
relative root path =
    let prefix = trim_slashes root in
    let rest = drop (length prefix) path in
    if same_text (take (length prefix) path) prefix
    then (if at_boundary rest then skip_slashes rest else path)
    else path

pub record Reading : Type 0 where
  pub file_data : List File
  pub total_bytes : ℕ

abbrev pub push_file : List ℕ → List ℕ → Reading → List ℕ → Reading
push_file root path s bytes = record {
  file_data = s.file_data ++ ((relative root path, bytes) ∷ []);
  total_bytes = u64 (s.total_bytes + length bytes);
}

-- The loop over as many results as there are paths.
unfoldable pub gather : List ℕ → ℕ → List ReadResult → Reading → Option Reading
gather root zero results s = some s
gather root (suc n) [] s = none
gather root (suc n) (r ∷ results) s =
    r.bytes >>= λ bytes. gather root n results (push_file root r.path s bytes)

abbrev pub chunk_commands : List PackBlock → List SenderCommand
chunk_commands [] = []
chunk_commands (b ∷ bs) = send_chunk b.bytes ∷ chunk_commands bs

-- `file_name`, or the whole path where it has none: what stands behind the last slash, of a path that
-- does not end with one.
abbrev pub last_part : List ℕ → List ℕ → List ℕ
last_part [] part = part
last_part (x ∷ xs) part =
    let inside = last_part xs (part ++ (x ∷ [])) in
    let behind = last_part xs [] in if x == b'/' then behind else inside

unfoldable pub file_name : List ℕ → List ℕ
file_name path = last_part path []

-- A call that blocks returns, fails, or waits for ever.
pub data Outcome (A : Type 0) : Type 0 where
  returns : A → Outcome A
  fails : Outcome A
  waits : Outcome A

abbrev pub try_outcome : {A B : Type 0} → Option A → (A → Outcome B) → Outcome B
try_outcome none next = fails
try_outcome (some a) next = next a

-- All requests are sent before the first result is received: where the channels and the thread do not
-- hold them all, the sends and the thread wait for one another. `Submission` has the steps.
abbrev pub submit_all : {A : Type 0} → List (List ℕ) → Outcome A → Outcome A
submit_all file_paths next =
    if ltb (channel_bound + (1 + channel_bound)) (length file_paths) then waits else next

abbrev pub with_shutdown : Outcome (ℕ × List SenderCommand) → Outcome (List SenderCommand)
with_shutdown (returns (total, commands)) = returns (commands ++ (shutdown ∷ []))
with_shutdown fails = fails
with_shutdown waits = waits

module _ (read : List ℕ → Option (List ℕ)) where
  -- The reader thread answers the requests in their order.
  unfoldable pub reader_loop : List (List ℕ) → List ReadResult
  reader_loop [] = []
  reader_loop (path ∷ paths) = record { path = path; bytes = read path } ∷ reader_loop paths

  -- The total, and the commands that are sent.
  unfoldable pub stream_directory : List ℕ → Listing → Outcome (ℕ × List SenderCommand)
  stream_directory root listing = try_outcome (collect_recursive listing []) (λ file_paths.
      submit_all file_paths (
        try_outcome
          (gather root (length file_paths) (reader_loop file_paths)
            (record { file_data = []; total_bytes = 0 }))
          (λ s. returns (s.total_bytes, chunk_commands (pack_files s.file_data)))))

  unfoldable pub send_directory : List ℕ → Listing → Outcome (List SenderCommand)
  send_directory root listing = with_shutdown (stream_directory root listing)

  -- One file under its name alone.
  unfoldable pub read_large_file : List ℕ → Option (ℕ × List SenderCommand)
  read_large_file path = read path >>= λ bytes.
      some (length bytes, chunk_commands (pack_files ((file_name path, bytes) ∷ [])))
