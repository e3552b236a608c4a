-- ===== src/Receiver/Stopping.antt =====
-- How the clock of the worker thread moves, and how long stopReceiver takes.
use efp.Prelude.{
  ℕ, zero, suc, ◌+◌, ◌-◌, ◌≤◌, ◌<◌, ◌≡◌, refl, sym, ap, ◌∙◌, arith, Bool, true, false, ◌⊎◌, inl,
  inr, ltb, Bool-cases,
}
use efp.Prelude.Bytes.{holds_below}
use efp.Message.{no_error, failed_stopping_receiver}
use efp.Receiver.{ElasticFrameProtocolReceiver}
use efp.Receiver.Threads.{turn, Stopped, wait_for_threads, stop_receiver}

-- The time by which a round of the worker judges the buckets is its reference time. It is not before
-- the sample of the clock, and at least 10000 us later than in the round before, so that the rounds
-- pass every deadline. The thread sleeps at most until then, and never more than 10000 us when the
-- clock does not stand before the old reference.
pub turn_lem :
    (reference sample : ℕ)
    → ((turn reference sample).time_now ≡ (turn reference sample).time_reference)
      × (sample + (turn reference sample).sleeps ≡ (turn reference sample).time_now)
      × (reference + 10000 ≤ (turn reference sample).time_now)
      × ((turn reference sample).is_overloaded ≡ ltb (reference + 10000) sample)
      × ((turn reference sample).sleeps ≤ 10000 + (reference - sample))
unfolding turn
turn_lem reference sample = elim (Bool-cases (ltb (reference + 10000) sample)) [
  | inl over ↦ rw over (omega arith, refl, ground arith, refl, omega arith)
  | inr fine ↦ rw fine (ground arith, refl, ground arith, refl, ground arith)
]

-- stopReceiver found a test at which no thread was active, and slept once for each test before it.
pub record FoundStopped (running : ℕ → Bool) (naps bound : ℕ) (x : Stopped) : Type 0 where
  pub at : ℕ
  pub in_time : at < bound
  pub all_before : holds_below (λ k. running (naps + k)) at ≡ true
  pub stopped_there : running (naps + at) ≡ false
  pub answers : x ≡ record { message = no_error; naps = naps + at }

-- It found a thread active at every test, and gave up.
pub record GaveUp (running : ℕ → Bool) (naps bound : ℕ) (x : Stopped) : Type 0 where
  pub all : holds_below (λ k. running (naps + k)) bound ≡ true
  pub answers : x ≡ record { message = failed_stopping_receiver; naps = naps + bound }

-- A test that holds at the first place, and at all places behind it.
holds_below-shift :
    (running : ℕ → Bool) (naps bound : ℕ)
    → running naps ≡ true
    → holds_below (λ k. running ((naps + 1) + k)) bound ≡ true
    → holds_below (λ k. running (naps + k)) (suc bound) ≡ true
unfolding holds_below
holds_below-shift running naps zero first rest =
    let same : naps + 0 ≡ naps = omega arith in rw (same, first)
holds_below-shift running naps (suc bound) first rest =
    let same : naps + suc bound ≡ (naps + 1) + bound = omega arith in
    elim (Bool-cases (running ((naps + 1) + bound))) [
      | inl on ↦
          rw (same, on) (holds_below-shift running naps bound first (ground (arith, on, rest)))
      | inr off ↦ absurd (ground (arith, off, rest))
    ]

wait_lem :
    (running : ℕ → Bool) (bound naps : ℕ)
    → FoundStopped running naps bound (wait_for_threads running bound naps)
      ⊎ GaveUp running naps bound (wait_for_threads running bound naps)
unfolding wait_for_threads holds_below
wait_lem running zero naps =
    let same : naps ≡ naps + 0 = omega arith in
    inr (record {
      all = refl;
      answers = ap (λ (n : ℕ). record { message = failed_stopping_receiver; naps = n }) same;
    })
wait_lem running (suc bound) naps =
    let here : naps ≡ naps + 0 = omega arith in
    elim (Bool-cases (running naps)) [
      | inr off ↦ inl (record {
        at = 0;
        in_time = omega arith;
        all_before = refl;
        stopped_there = ap running (sym here) ∙ off;
        answers = rw (off, sym here);
      })
      | inl on ↦ elim (wait_lem running bound (naps + 1)) [
        | inl found ↦
            let moved : (naps + 1) + found.at ≡ naps + suc found.at = omega arith in
            inl (record {
              at = suc found.at;
              in_time = omega (arith, found.in_time);
              all_before = holds_below-shift running naps found.at on found.all_before;
              stopped_there = ap running (sym moved) ∙ found.stopped_there;
              answers = rw (on, sym moved) found.answers;
            })
        | inr gave ↦
            let moved : (naps + 1) + bound ≡ naps + suc bound = omega arith in
            inr (record {
              all = holds_below-shift running naps bound on gave.all;
              answers = rw (on, sym moved) gave.answers;
            })
      ]
    ]

-- Whatever the two threads do, stopReceiver ends: either it finds both of them inactive at one of its
-- first 1000 tests, the first at which that is so, answers noError and has slept once for each test
-- before, or it finds a thread active at all 1000 tests, and answers failedStoppingReceiver.
pub stop_receiver_lem :
    (r : ElasticFrameProtocolReceiver) (running : ℕ → Bool)
    → FoundStopped running 0 1000 (stop_receiver r running).0
      ⊎ GaveUp running 0 1000 (stop_receiver r running).0
unfolding stop_receiver
stop_receiver_lem r running = wait_lem running 1000 0
