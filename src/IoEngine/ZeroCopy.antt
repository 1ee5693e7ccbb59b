-- ===== src/IoEngine/ZeroCopy.antt =====
-- crates/ioengine/src/zerocopy.rs on Linux. What the kernel answers is a parameter.
use udpix.Base.{
  ℕ, zero, suc, ◌+◌, ◌-◌, Bool, List, [], ◌∷◌, ◌++◌, Option, none, some, ◌==◌, if◌then◌else◌,
  length, take, drop,
}

-- How many bytes each call of `splice` moves, by the number of the call: into the pipe out of the
-- bytes that are left of the source, when some are wanted; and out of the pipe, when some are left in
-- it. Zero stands for the end of the source and for an error, which the code treats alike.
pub record Splice : Type 0 where
  pub pipe_opens : Bool
  pub into_pipe : ℕ → ℕ → ℕ → ℕ
  pub out_of_pipe : ℕ → ℕ → ℕ

-- The bytes left of the source, those in the destination, the number transferred, and the calls.
pub record Splicing : Type 0 where
  pub source : List ℕ
  pub target : List ℕ
  pub total : ℕ
  pub calls : ℕ

module _ (kernel : Splice) where
  open kernel use {pipe_opens, into_pipe, out_of_pipe}

  abbrev pub move_out : ℕ → List ℕ → Splicing → Splicing
  move_out n pipe s = record s {
    target = s.target ++ take n pipe;
    total = s.total + n;
    calls = s.calls + 1;
  }

  -- The inner loop. The fuel is the number of bytes in the pipe: each round takes at least one.
  unfoldable pub drain_pipe : ℕ → List ℕ → Splicing → Option Splicing
  drain_pipe fuel [] s = some s
  drain_pipe zero (x ∷ pipe) s = none
  drain_pipe (suc fuel) (x ∷ pipe) s =
      let n = out_of_pipe s.calls (length (x ∷ pipe)) in
      let rest = drain_pipe fuel (drop n (x ∷ pipe)) (move_out n (x ∷ pipe) s) in
      if n == 0 then none else rest

  abbrev pub move_in : ℕ → Splicing → Splicing
  move_in n s = record s { source = drop n s.source; calls = s.calls + 1 }

  abbrev pub after_drain : Option Splicing → (Splicing → Option Splicing) → Option Splicing
  after_drain none rest = none
  after_drain (some s) rest = rest s

  -- The outer loop. The fuel is the number of bytes that are wanted.
  unfoldable pub splice_loop : ℕ → ℕ → Splicing → Option Splicing
  splice_loop zero remaining s = some s
  splice_loop (suc fuel) remaining s =
      let n = into_pipe s.calls (length s.source) remaining in
      let rest =
        after_drain (drain_pipe n (take n s.source) (move_in n s))
          (splice_loop fuel (remaining - n)) in
      if remaining == 0
      then some s
      else if n == 0
      then some (record s { calls = s.calls + 1 })
      else rest

  unfoldable pub splice_copy : List ℕ → ℕ → Option Splicing
  splice_copy source len =
      if pipe_opens
      then splice_loop len len (record { source = source; target = []; total = 0; calls = 0 })
      else none
