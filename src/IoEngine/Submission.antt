-- ===== src/IoEngine/Submission.antt =====
-- The two channels between `stream_directory` and the reader thread (crates/ioengine/src/reader.rs): the
-- requests are all submitted before the first result is received, and both channels are bounded.
use udpix.Base.{ℕ, suc, ◌+◌, ◌*◌, ◌≤◌, ◌<◌, ◌≡◌, refl, ◌⊎◌, inl, inr, arith}
use udpix.IoEngine.Reader.{channel_bound}

-- How many requests were submitted, how many wait in the channel, whether the thread has one in hand
-- (one or zero), how many results wait, and how many were received.
pub record Pipeline : Type 0 where
  pub submitted : ℕ
  pub requests : ℕ
  pub in_hand : ℕ
  pub results : ℕ
  pub taken : ℕ

unfoldable pub start_pipeline : Pipeline
start_pipeline = record { submitted = 0; requests = 0; in_hand = 0; results = 0; taken = 0 }

-- What can happen next with `n` files: `send` waits while its channel is full, `recv` while it is
-- empty, and results are received only after the last request.
pub data Step (n : ℕ) : Pipeline → Pipeline → Type 0 where
  submit :
      (p : Pipeline)
      → p.submitted < n
      → p.requests < channel_bound
      → Step n p (record p { submitted = p.submitted + 1; requests = p.requests + 1 })
  begin_read :
      (p : Pipeline) (k : ℕ)
      → p.requests ≡ suc k
      → p.in_hand ≡ 0
      → Step n p (record p { requests = k; in_hand = 1 })
  end_read :
      (p : Pipeline)
      → p.in_hand ≡ 1
      → p.results < channel_bound
      → Step n p (record p { in_hand = 0; results = p.results + 1 })
  receive :
      (p : Pipeline) (k : ℕ)
      → p.submitted ≡ n
      → p.results ≡ suc k
      → Step n p (record p { results = k; taken = p.taken + 1 })

pub data Run (n : ℕ) : Pipeline → Type 0 where
  start : Run n start_pipeline
  then_step : (p q : Pipeline) → Run n p → Step n p q → Run n q

-- What holds at all times.
pub record IsPipeline (n : ℕ) (p : Pipeline) : Type 0 where
  pub counted : p.submitted ≡ p.requests + (p.in_hand + (p.results + p.taken))
  pub within : p.submitted ≤ n
  pub few_requests : p.requests ≤ channel_bound
  pub one_hand : p.in_hand ≤ 1
  pub few_results : p.results ≤ channel_bound
  pub in_order : (p.taken ≡ 0) ⊎ (p.submitted ≡ n)

Step-IsPipeline : (n : ℕ) (p q : Pipeline) → IsPipeline n p → Step n p q → IsPipeline n q
Step-IsPipeline n _ _ v (submit p less room) = record {
  counted = omega (arith, v.counted);
  within = omega arith;
  few_requests = omega arith;
  one_hand = v.one_hand;
  few_results = v.few_results;
  in_order = elim v.in_order [ inl e ↦ inl e | inr e ↦ absurd (omega (arith, e)) ];
}
Step-IsPipeline n _ _ v (begin_read p k some_left free) = record {
  counted = omega (arith, v.counted, some_left, free);
  within = v.within;
  few_requests = omega (arith, v.few_requests, some_left);
  one_hand = omega arith;
  few_results = v.few_results;
  in_order = v.in_order;
}
Step-IsPipeline n _ _ v (end_read p busy room) = record {
  counted = omega (arith, v.counted, busy);
  within = v.within;
  few_requests = v.few_requests;
  one_hand = omega arith;
  few_results = omega arith;
  in_order = v.in_order;
}
Step-IsPipeline n _ _ v (receive p k all some_left) = record {
  counted = omega (arith, v.counted, some_left);
  within = v.within;
  few_requests = v.few_requests;
  one_hand = v.one_hand;
  few_results = omega (arith, v.few_results, some_left);
  in_order = inr all;
}

Run-IsPipeline : (n : ℕ) (p : Pipeline) → Run n p → IsPipeline n p
unfolding start_pipeline
Run-IsPipeline n _ start = record {
  counted = refl;
  within = omega arith;
  few_requests = omega arith;
  one_hand = omega arith;
  few_results = omega arith;
  in_order = inl refl;
}
Run-IsPipeline n _ (then_step p q run step) = Step-IsPipeline n p q (Run-IsPipeline n p run) step

never_taken : (n : ℕ) (p : Pipeline) → 1025 < n → Run n p → p.taken ≡ 0
unfolding start_pipeline
never_taken n _ many start = refl
never_taken n _ many (then_step _ _ run (submit p less room)) = never_taken n p many run
never_taken n _ many (then_step _ _ run (begin_read p k some_left free)) = never_taken n p many run
never_taken n _ many (then_step _ _ run (end_read p busy room)) = never_taken n p many run
never_taken n _ many (then_step _ _ run (receive p k all some_left)) =
    let v = Run-IsPipeline n p run in
    absurd (
      omega (
        arith,
        all,
        v.counted,
        v.few_requests,
        v.one_hand,
        v.few_results,
        never_taken n p many run,
      ))

-- With more files than both channels and the thread hold together, 1025, the submission never ends:
-- in no order of the steps is the last request submitted, and no result is ever received.
pub submission_stuck :
    (n : ℕ) (p : Pipeline) → 1025 < n → Run n p → (p.submitted ≤ 1025) × (p.taken ≡ 0)
submission_stuck n p many run =
    let v = Run-IsPipeline n p run in
    let none_taken = never_taken n p many run in
    (omega (arith, v.counted, v.few_requests, v.one_hand, v.few_results, none_taken), none_taken)

-- Each step brings one file one stage further.
abbrev pub stages : Pipeline → ℕ
stages p = p.requests + (2 * p.in_hand + (3 * p.results + 4 * p.taken))

-- How many steps a run has taken.
abbrev pub steps_of : {n : ℕ} {p : Pipeline} → Run n p → ℕ
steps_of start = 0
steps_of (then_step p q run step) = steps_of run + 1
