-- ===== src/IoEngine/Writer.antt =====
-- crates/ioengine/src/writer.rs. An error is `none`. What the writer thread and the file system answer is a
-- parameter.
use udpix.Base.{
  ◌-◌, min, ltb, take, slice, ℕ, zero, suc, ◌+◌, Bool, true, List, [], ◌∷◌, ◌++◌, Option, none,
  some, ◌==◌, if◌then◌else◌, length, ◌>>=◌,
}
use udpix.Base.Bytes.{u64}
use udpix.Control.Table.{find, put, erase}
use udpix.IoEngine.Reader.{Progress, finished, failed, running, overwrite}
use udpix.Packer.Wire.{FileEntry, unpack_entries}

-- `PathBuf::join` on Unix: an absolute path replaces the directory.
abbrev pub ends_with_slash : List ℕ → Bool
ends_with_slash [] = true
ends_with_slash (x ∷ []) = x == b'/'
ends_with_slash (x ∷ y ∷ xs) = ends_with_slash (y ∷ xs)

abbrev pub under : List ℕ → List ℕ → List ℕ
under dir path = if ends_with_slash dir then dir ++ path else dir ++ (b'/' ∷ path)

unfoldable pub join : List ℕ → List ℕ → List ℕ
join dir [] = under dir []
join dir (x ∷ path) = if x == b'/' then x ∷ path else under dir (x ∷ path)

pub record WriteRequest : Type 0 where
  pub abs_path : List ℕ
  pub bytes : List ℕ

pub record PartialFile : Type 0 where
  pub total_parts : ℕ
  pub received : List (ℕ × List ℕ)

-- `parts.insert(i, bytes)`.
unfoldable pub insert_part : ℕ → List ℕ → List (ℕ × List ℕ) → List (ℕ × List ℕ)
insert_part i bytes [] = (i, bytes) ∷ []
insert_part i bytes ((j, b) ∷ m) =
    let rest = insert_part i bytes m in if j == i then (j, bytes) ∷ m else (j, b) ∷ rest

-- What `parts.remove(&i)` gives, nothing for a part that is missing, and what it leaves.
unfoldable pub part_at : ℕ → List (ℕ × List ℕ) → List ℕ
part_at i [] = []
part_at i ((j, b) ∷ m) = let rest = part_at i m in if j == i then b else rest

unfoldable pub without_part : ℕ → List (ℕ × List ℕ) → List (ℕ × List ℕ)
without_part i [] = []
without_part i ((j, b) ∷ m) = let rest = without_part i m in if j == i then m else (j, b) ∷ rest

unfoldable pub is_complete : PartialFile → Bool
is_complete pf = length pf.received == pf.total_parts

-- The loop over `0..total_parts`: the rounds left, and the number of the next part.
unfoldable pub assemble_from : ℕ → ℕ → List (ℕ × List ℕ) → List ℕ
assemble_from zero i received = []
assemble_from (suc n) i received =
    part_at i received ++ assemble_from n (i + 1) (without_part i received)

unfoldable pub assemble : PartialFile → List ℕ
assemble pf = assemble_from pf.total_parts 0 pf.received

-- What `try_recv` on the results finds.
pub data Poll : Type 0 where
  written : Poll
  write_failed : Poll
  nothing_yet : Poll
  thread_died : Poll

-- Whether the directory of a request can be made and the thread takes it; what the polls find, by
-- their number; and what the last waits find: a result and whether it is good, or a dead thread.
pub record WriterThread : Type 0 where
  pub accepts : WriteRequest → Bool
  pub polled : ℕ → Poll
  pub drained : ℕ → Option Bool

-- The variables of `receive_and_write`, the requests submitted so far, and the number of polls.
pub record Writing : Type 0 where
  pub partial : List (List ℕ × PartialFile)
  pub in_flight : ℕ
  pub total_bytes : ℕ
  pub requests : List WriteRequest
  pub polls : ℕ

unfoldable pub start_writing : Writing
start_writing = record { partial = []; in_flight = 0; total_bytes = 0; requests = []; polls = 0 }

abbrev pub or_new_file : ℕ → Option PartialFile → PartialFile
or_new_file total_parts none = record { total_parts = total_parts; received = [] }
or_new_file total_parts (some pf) = pf

-- What follows a poll: another round, an error, or the end of the loop.
abbrev pub after_poll : Poll → Writing → Option Writing → Option Writing
after_poll written w rest = rest
after_poll write_failed w rest = none
after_poll nothing_yet w rest = some w
after_poll thread_died w rest = none

abbrev pub after_wait : Option Bool → Option (Unit {0}) → Option (Unit {0})
after_wait none rest = none
after_wait (some good) rest = if good then rest else none

module _ (thread : WriterThread) (output_dir : List ℕ) where
  open thread use {accepts, polled, drained}

  unfoldable pub submit_write : List ℕ → List ℕ → Writing → Option Writing
  submit_write path bytes w =
      let req : WriteRequest = record { abs_path = join output_dir path; bytes = bytes } in
      if accepts req
      then some (record w {
        requests = w.requests ++ (req ∷ []);
        total_bytes = u64 (w.total_bytes + length bytes);
        in_flight = w.in_flight + 1;
      })
      else none

  -- The loop over the results that are there; the rounds are the writes in flight.
  unfoldable pub reap : ℕ → Writing → Option Writing
  reap zero w = some w
  reap (suc n) w =
      let rest = reap n (record w { in_flight = n; polls = w.polls + 1 }) in
      after_poll (polled w.polls) (record w { polls = w.polls + 1 }) rest

  -- The part of a split file is kept; the last one completes the file.
  unfoldable pub keep_part : List ℕ → PartialFile → Writing → Option Writing
  keep_part path pf w =
      if is_complete pf
      then submit_write path (assemble pf) (record w { partial = erase path w.partial })
      else some (record w { partial = put path pf w.partial })

  unfoldable pub accept_part : List ℕ → ℕ → ℕ → List ℕ → Writing → Option Writing
  accept_part path part_index total_parts bytes w =
      let pf = or_new_file total_parts (find path w.partial) in
      if total_parts == 1
      then submit_write path bytes w
      else keep_part path (record pf { received = insert_part part_index bytes pf.received }) w

  -- The body of the loop over the entries.
  unfoldable pub on_part : List ℕ → ℕ → ℕ → List ℕ → Writing → Option Writing
  on_part path part_index total_parts bytes w =
      accept_part path part_index total_parts bytes w >>= λ w'. reap w'.in_flight w'

  unfoldable pub on_entries : List (FileEntry × List ℕ) → Writing → Option Writing
  on_entries [] w = some w
  on_entries ((e, d) ∷ es) w =
      on_part e.path e.part_index e.total_parts d w >>= λ w'. on_entries es w'

  -- The last waits.
  unfoldable pub drain_results : ℕ → ℕ → Option (Unit {0})
  drain_results zero k = some tt
  drain_results (suc n) k = let rest = drain_results n (k + 1) in after_wait (drained k) rest

  module _ (is_utf8 : List ℕ → Bool) where
    -- The loop over the chunks that arrive.
    unfoldable pub on_chunks : List (List ℕ) → Writing → Option Writing
    on_chunks [] w = some w
    on_chunks (chunk ∷ chunks) w =
        unpack_entries is_utf8 (record { id = 0; bytes = chunk }) >>= λ es.
        on_entries es w >>= λ w'. on_chunks chunks w'

    -- The total, and the requests that the thread was given.
    unfoldable pub receive_and_write : List (List ℕ) → Option (ℕ × List WriteRequest)
    receive_and_write chunks = on_chunks chunks start_writing >>= λ w.
        drain_results w.in_flight 0 >>= λ _. some (w.total_bytes, w.requests)

abbrev pub write_chunk : ℕ
write_chunk = 65536

abbrev pub after_write : Option ℕ → (ℕ → Progress (List ℕ)) → Progress (List ℕ)
after_write none rest = failed
after_write (some n) rest = rest n

-- `writes` has the number of the write, its offset and its bytes; the kernel answers with how many of
-- them it wrote, or with an error.
module _ (writes : ℕ → ℕ → List ℕ → Option ℕ) where
  unfoldable pub write_loop : ℕ → ℕ → List ℕ → ℕ → List ℕ → Progress (List ℕ)
  write_loop zero k bytes offset file = if ltb offset (length bytes) then running else finished file
  write_loop (suc fuel) k bytes offset file =
      let chunk = min (length bytes - offset) write_chunk in
      let buf = slice bytes offset chunk in
      let rest =
        after_write (writes k offset buf)
          (λ n. write_loop fuel (k + 1) bytes (offset + n) (overwrite offset (take n buf) file)) in
      if ltb offset (length bytes) then rest else finished file

  -- The file is created, or cut to nothing. The fuel is the number of rounds that are looked at.
  unfoldable pub write_file : ℕ → List ℕ → Progress (List ℕ)
  write_file fuel bytes = write_loop fuel 0 bytes 0 []
