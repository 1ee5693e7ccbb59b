-- ===== src/IoEngine/Spliced.antt =====
-- What splice_copy transfers (crates/ioengine/src/zerocopy.rs).
use udpix.Base.{
  subst, Bool, none, if◌then◌else◌, ℕ, zero, suc, ◌+◌, ◌-◌, min, ◌≤◌, ◌<◌, ◌≡◌, refl, sym, ap, ◌∙◌,
  true, false, List, [], ◌∷◌, ◌++◌, Option, some, ◌==◌, length, take, drop, arith, inl, inr,
  Bool-cases, ==→eq, ne→==, eq→==, append-nil, append_assoc, length-take, length-drop,
  take-append-drop, take_more, ap₂,
}
use udpix.IoEngine.ZeroCopy.{
  Splice, Splicing, move_out, move_in, drain_pipe, splice_loop, splice_copy,
}

-- Each call that can move bytes moves some, at most those wanted and those there.
pub record Moves (kernel : Splice) : Type 0 where
  pub opens : kernel.pipe_opens ≡ true
  pub moves_in :
      (k there wanted : ℕ)
      → 0 < there
      → 0 < wanted
      → (0 < kernel.into_pipe k there wanted)
        × (kernel.into_pipe k there wanted ≤ there)
        × (kernel.into_pipe k there wanted ≤ wanted)
  pub nothing_left : (k wanted : ℕ) → kernel.into_pipe k 0 wanted ≡ 0
  pub moves_out :
      (k there : ℕ)
      → 0 < there
      → (0 < kernel.out_of_pipe k there) × (kernel.out_of_pipe k there ≤ there)

module _ (kernel : Splice) (fair : Moves kernel) where
  -- The whole pipe comes to the destination.
  Drained : List ℕ → Splicing → Option Splicing → Type 0
  Drained pipe s out =
      (t : Splicing) × (out ≡ some t)
      × (t.source ≡ s.source)
      × (t.target ≡ s.target ++ pipe)
      × (t.total ≡ s.total + length pipe)

  drain_pipe_lem :
      (fuel : ℕ) (pipe : List ℕ) (s : Splicing)
      → length pipe ≤ fuel
      → Drained pipe s (drain_pipe kernel fuel pipe s)
  unfolding drain_pipe Drained
  drain_pipe_lem fuel [] s enough = (s, refl, refl, sym (append-nil s.target), omega arith)
  drain_pipe_lem zero (x ∷ pipe) s enough = absurd (omega arith)
  drain_pipe_lem (suc fuel) (x ∷ pipe) s enough =
      let n = kernel.out_of_pipe s.calls (length (x ∷ pipe)) in
      let (positive, inside) = fair.moves_out s.calls (length (x ∷ pipe)) (omega arith) in
      let some_moved : (n == 0) ≡ false = ne→== n 0 (λ e. omega (arith, e)) in
      let left = drop n (x ∷ pipe) in
      let size = length-drop n (x ∷ pipe) in
      let (t, found, source, target, total) =
        drain_pipe_lem fuel left (move_out kernel n (x ∷ pipe) s) (omega (arith, size)) in
      (
        t,
        rw some_moved found,
        source,
        target
            ∙ append_assoc s.target (take n (x ∷ pipe)) left
            ∙ ap (λ (bs : List ℕ). s.target ++ bs) (take-append-drop n (x ∷ pipe)),
        omega (arith, total, size),
      )

  -- As many bytes as are wanted, or all that are there.
  Copied : ℕ → Splicing → Option Splicing → Type 0
  Copied remaining s out =
      (t : Splicing) × (out ≡ some t)
      × (t.target ≡ s.target ++ take remaining s.source)
      × (t.total ≡ s.total + min remaining (length s.source))

  nothing_more :
      (remaining : ℕ) (s t : Splicing)
      → remaining ≡ 0
      → t.target ≡ s.target
      → t.total ≡ s.total
      → Copied remaining s (some t)
  unfolding Copied
  nothing_more remaining s t e target total = (
    t,
    refl,
    target ∙ sym (append-nil s.target) ∙ ap (λ (k : ℕ). s.target ++ take k s.source) (sym e),
    omega (arith, total),
  )

  take_empty : (k : ℕ) (xs : List ℕ) → length xs ≡ 0 → take k xs ≡ []
  take_empty zero xs h = refl
  take_empty (suc k) [] h = refl
  take_empty (suc k) (x ∷ xs) h = absurd (omega arith)

  one_round :
      (n remaining : ℕ) (s u : Splicing) (out : Option Splicing)
      → n ≤ remaining
      → n ≤ length s.source
      → u.source ≡ drop n s.source
      → u.target ≡ s.target ++ take n s.source
      → u.total ≡ s.total + n
      → Copied (remaining - n) u out
      → Copied remaining s out
  unfolding Copied
  one_round n remaining s u out wanted there source target total (t, found, all, count) = (
    t,
    found,
    all
        ∙ ap₂ (λ (xs ys : List ℕ). xs ++ take (remaining - n) ys) target source
        ∙ append_assoc s.target (take n s.source) (take (remaining - n) (drop n s.source))
        ∙ ap (λ (bs : List ℕ). s.target ++ bs) (take_more n (remaining - n) s.source)
        ∙ ap (λ (k : ℕ). s.target ++ take k s.source) (restored wanted),
    omega (arith, count, total, ap (λ (bs : List ℕ). length bs) source, length-drop n s.source),
  )
    where
      restored : n ≤ remaining → n + (remaining - n) ≡ remaining
      restored le = omega arith

  wanted_now : ℕ → Splicing → ℕ
  wanted_now remaining s = kernel.into_pipe s.calls (length s.source) remaining

  splice_loop-stop :
      (fuel remaining : ℕ) (s : Splicing)
      → (remaining == 0) ≡ false
      → (wanted_now remaining s == 0) ≡ true
      → splice_loop kernel (suc fuel) remaining s ≡ some (record s { calls = s.calls + 1 })
  unfolding splice_loop wanted_now
  splice_loop-stop fuel remaining s e g = rw (e, g) refl

  splice_loop-step :
      (fuel remaining : ℕ) (s u : Splicing)
      → (remaining == 0) ≡ false
      → (wanted_now remaining s == 0) ≡ false
      → drain_pipe kernel
          (wanted_now remaining s)
          (take (wanted_now remaining s) s.source)
          (move_in kernel (wanted_now remaining s) s)
        ≡ some u
      → splice_loop kernel (suc fuel) remaining s
        ≡ splice_loop kernel fuel (remaining - wanted_now remaining s) u
  unfolding splice_loop wanted_now
  splice_loop-step fuel remaining s u e g drained = rw (e, g, drained) refl

  stopped :
      (remaining : ℕ) (s : Splicing)
      → length s.source ≡ 0
      → Copied remaining s (some (record s { calls = s.calls + 1 }))
  unfolding Copied
  stopped remaining s empty = (
    record s { calls = s.calls + 1 },
    refl,
    sym (append-nil s.target)
        ∙ ap (λ (bs : List ℕ). s.target ++ bs) (sym (take_empty remaining s.source empty)),
    omega (arith, empty),
  )

  splice_loop_lem :
      (fuel remaining : ℕ) (s : Splicing)
      → remaining ≤ fuel
      → Copied remaining s (splice_loop kernel fuel remaining s)
  unfolding splice_loop Drained wanted_now
  splice_loop_lem zero remaining s enough = nothing_more remaining s s (omega arith) refl refl
  splice_loop_lem (suc fuel) remaining s enough = elim (Bool-cases (remaining == 0)) [
    | inl e ↦ rw e (nothing_more remaining s s (==→eq remaining 0 e) refl refl)
    | inr e ↦ elim (Bool-cases (length s.source == 0)) [
      | inl f ↦
          let empty = ==→eq (length s.source) 0 f in
          let none_moved : wanted_now remaining s ≡ 0 =
            ap (λ (there : ℕ). kernel.into_pipe s.calls there remaining) empty
            ∙ fair.nothing_left s.calls remaining in
          subst (Copied remaining s)
            (sym (splice_loop-stop fuel remaining s e (eq→== _ _ none_moved)))
            (stopped remaining s empty)
      | inr f ↦
          let some_there : 0 < length s.source = ground arith in
          let some_wanted : 0 < remaining = ground arith in
          let (positive, there, wanted) =
            fair.moves_in s.calls (length s.source) remaining some_there some_wanted in
          let n = wanted_now remaining s in
          let count : length (take n s.source) ≡ n = omega (arith, length-take n s.source) in
          let (u, drained, source, target, total) =
            drain_pipe_lem n (take n s.source) (move_in kernel n s) (omega (arith, count)) in
          subst (Copied remaining s)
            (sym
              (splice_loop-step fuel remaining s u e (ne→== n 0 (λ z. omega (arith, z))) drained))
            (one_round n remaining s u (splice_loop kernel fuel (remaining - n) u) wanted there
              source target (total ∙ ap (λ (k : ℕ). s.total + k) count)
              (splice_loop_lem fuel (remaining - n) u (omega arith)))
    ]
  ]

  opened :
      (source : List ℕ) (len : ℕ)
      → kernel.pipe_opens ≡ true
      → splice_copy kernel source len
        ≡ splice_loop kernel len len (record { source = source; target = []; total = 0; calls = 0 })
  unfolding splice_copy
  opened source len h =
      ap
        (λ (b : Bool).
          if b
          then splice_loop kernel len len
              (record { source = source; target = []; total = 0; calls = 0 })
          else none)
        h

  -- A copy transfers as many bytes as are asked for, or all that the source has if these are fewer:
  -- they stand in the destination in their order, and their number is returned. It holds where the
  -- pipe can be made and each call of the kernel moves at least one of the bytes that it could move.
  pub splice_copy_lem :
      (source : List ℕ) (len : ℕ)
      → (t : Splicing) × (splice_copy kernel source len ≡ some t)
        × (t.target ≡ take len source)
        × (t.total ≡ min len (length source))
  unfolding Copied
  splice_copy_lem source len =
      let s : Splicing = record { source = source; target = []; total = 0; calls = 0 } in
      let (t, found, target, total) = splice_loop_lem len len s (omega arith) in
      (t, opened source len fair.opens ∙ found, target, omega (arith, total))
