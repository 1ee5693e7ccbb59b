-- ===== src/IoEngine/Parts.antt =====
-- Keeping one part and submitting one file (crates/ioengine/src/writer.rs).
use udpix.Base.{
  ℕ, zero, suc, ◌+◌, ◌≡◌, refl, sym, ap, subst, true, false, ◌⊎◌, List, [], ◌∷◌, ◌++◌, Option, none,
  some, ◌==◌, length, arith, inl, inr, eq→==, ne→==, ◌>>=◌,
}
use udpix.Base.Bytes.{u64}
use udpix.Sender.Chunks.{concat}
use udpix.IoEngine.Writer.{
  WriteRequest, PartialFile, WriterThread, Writing, written, nothing_yet, join, insert_part,
  part_at, without_part, assemble_from, submit_write, reap, accept_part, on_part,
}

-- Parts numbered from a number on.
abbrev pub numbered : ℕ → List (List ℕ) → List (ℕ × List ℕ)
numbered i [] = []
numbered i (b ∷ bs) = (i, b) ∷ numbered (i + 1) bs

pub length-numbered : (i : ℕ) (bs : List (List ℕ)) → length (numbered i bs) ≡ length bs
length-numbered i [] = refl
length-numbered i (b ∷ bs) = ap suc (length-numbered (i + 1) bs)

pub insert_part-numbered :
    (i k : ℕ) (bs : List (List ℕ)) (b : List ℕ)
    → k ≡ i + length bs
    → insert_part k b (numbered i bs) ≡ numbered i (bs ++ (b ∷ []))
unfolding insert_part
insert_part-numbered i k [] b h = ap (λ (t : ℕ). (t, b) ∷ []) (omega arith)
insert_part-numbered i k (c ∷ bs) b h =
    let other : (i == k) ≡ false = ne→== i k (λ e. omega arith) in
    rw other (
      ap (λ (t : List (ℕ × List ℕ)). (i, c) ∷ t)
        (insert_part-numbered (i + 1) k bs b (omega arith)))

pub assemble_from-numbered :
    (n i : ℕ) (bs : List (List ℕ)) → length bs ≡ n → assemble_from n i (numbered i bs) ≡ concat bs
unfolding assemble_from part_at without_part
assemble_from-numbered zero i [] h = refl
assemble_from-numbered zero i (b ∷ bs) h = absurd (omega arith)
assemble_from-numbered (suc n) i [] h = absurd (omega arith)
assemble_from-numbered (suc n) i (b ∷ bs) h =
    rw (eq→== i i refl)
      (ap (λ (t : List ℕ). b ++ t) (assemble_from-numbered n (i + 1) bs (omega arith)))

-- The thread takes all requests and every write succeeds.
pub record IsHealthy (thread : WriterThread) : Type 0 where
  pub accepts_all : (req : WriteRequest) → thread.accepts req ≡ true
  pub no_failure : (k : ℕ) → (thread.polled k ≡ written) ⊎ (thread.polled k ≡ nothing_yet)
  pub drains : (k : ℕ) → thread.drained k ≡ some true

module _ (thread : WriterThread) (output_dir : List ℕ) (good : IsHealthy thread) where
  -- What has been submitted, and the split files that are under way.
  abbrev pub Stands : List WriteRequest → ℕ → List (List ℕ × PartialFile) → Option Writing → Type 0
  Stands reqs total partial none = ⊥
  Stands reqs total partial (some w) =
      (w.requests ≡ reqs) × (w.total_bytes ≡ total) × (w.partial ≡ partial)

  pub reap-Stands :
      (n : ℕ) (w : Writing) (reqs : List WriteRequest) (total : ℕ)
      (partial : List (List ℕ × PartialFile))
      → Stands reqs total partial (some w)
      → Stands reqs total partial (reap thread output_dir n w)
  unfolding reap
  reap-Stands zero w reqs total partial h = h
  reap-Stands (suc n) w reqs total partial h =
      let next : Writing = record w { in_flight = n; polls = w.polls + 1 } in
      let rest = reap-Stands n next reqs total partial h in
      elim (good.no_failure w.polls) [
        | inl e ↦
            let step : reap thread output_dir (suc n) w ≡ reap thread output_dir n next =
              rw e refl in
            subst (Stands reqs total partial) (sym step) rest
        | inr e ↦
            let step : reap thread output_dir (suc n) w ≡ some (record w { polls = w.polls + 1 }) =
              rw e refl in
            subst (Stands reqs total partial) (sym step) h
      ]

  abbrev pub request : List ℕ → List ℕ → WriteRequest
  request path bytes = record { abs_path = join output_dir path; bytes = bytes }

  pub submit-Stands :
      (path bytes : List ℕ) (w : Writing) (reqs : List WriteRequest) (total : ℕ)
      (partial : List (List ℕ × PartialFile))
      → Stands reqs total partial (some w)
      → Stands
          (reqs ++ (request path bytes ∷ []))
          (u64 (total + length bytes))
          partial
          (submit_write thread output_dir path bytes w)
  unfolding submit_write
  submit-Stands path bytes w reqs total partial (r, t, p) =
      let taken : submit_write thread output_dir path bytes w
          ≡ some (record w {
            requests = w.requests ++ (request path bytes ∷ []);
            total_bytes = u64 (w.total_bytes + length bytes);
            in_flight = w.in_flight + 1;
          }) =
        rw (good.accepts_all (request path bytes)) refl in
      subst (Stands (reqs ++ (request path bytes ∷ [])) (u64 (total + length bytes)) partial)
        (sym taken)
        (
          ap (λ (x : List WriteRequest). x ++ (request path bytes ∷ [])) r,
          ap (λ (x : ℕ). u64 (x + length bytes)) t,
          p,
        )

  -- A step, then another that meets its outcome.
  pub then-Stands :
      (o : Option Writing) (f : Writing → Option Writing) (reqs reqs' : List WriteRequest)
      (total total' : ℕ) (partial partial' : List (List ℕ × PartialFile))
      → Stands reqs total partial o
      → ((w : Writing) → Stands reqs total partial (some w) → Stands reqs' total' partial' (f w))
      → Stands reqs' total' partial' (o >>= f)
  then-Stands none f reqs reqs' total total' partial partial' h g = absurd h
  then-Stands (some w) f reqs reqs' total total' partial partial' h g = g w h

  pub reaped :
      (o : Option Writing) (reqs : List WriteRequest) (total : ℕ)
      (partial : List (List ℕ × PartialFile))
      → Stands reqs total partial o
      → Stands reqs total partial (o >>= λ w. reap thread output_dir w.in_flight w)
  reaped o reqs total partial h =
      then-Stands o (λ w. reap thread output_dir w.in_flight w) reqs reqs total total partial
        partial h (λ w g. reap-Stands w.in_flight w reqs total partial g)

  -- A whole file.
  pub whole-Stands :
      (path bytes : List ℕ) (i : ℕ) (w : Writing) (reqs : List WriteRequest) (total : ℕ)
      (partial : List (List ℕ × PartialFile))
      → Stands reqs total partial (some w)
      → Stands
          (reqs ++ (request path bytes ∷ []))
          (u64 (total + length bytes))
          partial
          (on_part thread output_dir path i 1 bytes w)
  unfolding on_part accept_part
  whole-Stands path bytes i w reqs total partial h =
      reaped (submit_write thread output_dir path bytes w) _ _ partial
        (submit-Stands path bytes w reqs total partial h)
