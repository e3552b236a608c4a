-- ===== src/Runs/Rounds.antt =====
-- Rounds of both threads over a complete bucket and one that still waits, and a damaged packet.
use efp.Prelude.{
  ◌+◌, false, ℕ, ◌≤◌, ◌≡◌, refl, arith, true, none, some, List, [], ◌∷◌, ◌++◌, length, lookup,
  ms_to_us, ◌==◌, insert, update,
}
use efp.Receiver.{ElasticFrameProtocolReceiver, threaded, new_bucket}
use efp.Frames.{SuperFrame, Env}
use efp.Receiver.Kept.{Kept, Holds, enter-Kept}
use efp.Receiver.Invariant.{IsReceiver, new_receiver-IsReceiver}
use efp.Receiver.Deliver.{hand_over, receiver_worker_round}
use efp.Receiver.Passes.{due}
use efp.Receiver.Rounds.{Round, receiver_worker_round-Round}
use efp.Receiver.Flat.{receiver_worker_round-flat}
use efp.Receiver.Deadline.{receiver_worker-deadline, HandedFrom, deadline-handed}
use efp.Receiver.Threads.{receiver_worker, delivery_worker}
use efp.Receiver.Deliver.{run_to_completion_method}
use efp.Receiver.AtOnce.{AtOnce, run_to_completion_method-AtOnce}
use efp.Receiver.Jump.{receiver_worker_round-jump}
use efp.Runs.{clock, receiver50}
use efp.Runs.Sections.{plain}
use efp.Runs.Pass.{full_bucket, waiting_bucket, receiver_two, two_no_hol, receiver_line}

abbrev pub receiver50-IsReceiver : IsReceiver receiver50
unfolding receiver50
receiver50-IsReceiver = new_receiver-IsReceiver 50 0 threaded

full-Holds : Holds full_bucket 1 1
full-Holds = record {
  in_use = refl;
  order_is = refl;
  place_is = refl;
  frame = plain;
  has_frame = refl;
}

waiting-Holds : Holds waiting_bucket 2 2
waiting-Holds = record {
  in_use = refl;
  order_is = refl;
  place_is = refl;
  frame = plain;
  has_frame = refl;
}

two-Kept : Kept receiver_two.bucket_map receiver_two.bucket_list
unfolding receiver_two receiver50 insert new_bucket
two-Kept =
    enter-Kept ((1, 1) ∷ []) (update receiver50.bucket_list 1 full_bucket)
      (enter-Kept [] receiver50.bucket_list receiver50-IsReceiver.kept 1 1 full_bucket refl
        full-Holds)
      2 2 waiting_bucket refl waiting-Holds

pub two-IsReceiver : IsReceiver receiver_two
unfolding receiver_two receiver50
two-IsReceiver = record { kept = two-Kept; bits_are = refl; awake = refl }

line-IsReceiver : IsReceiver receiver_line
unfolding receiver_two receiver_line receiver50
line-IsReceiver = record { kept = two-Kept; bits_are = refl; awake = refl }

receiver_worker_round-Round_example :
    (picks : List (ℕ × ℕ)) × Round receiver_line picks (receiver_worker_round clock receiver_line)
receiver_worker_round-Round_example =
    receiver_worker_round-Round clock receiver_line line-IsReceiver

receiver_worker_round-flat_example :
    Round receiver_two
      (due clock receiver_two receiver_two.bucket_map)
      (receiver_worker_round clock receiver_two)
receiver_worker_round-flat_example =
    receiver_worker_round-flat clock receiver_two two-IsReceiver two_no_hol

second_there : lookup 2 receiver_two.bucket_map ≡ some 2
unfolding receiver_two lookup
second_there = refl

second_timeout : (receiver_two.bucket_list 2).timeout ≤ 9000
unfolding receiver_two
second_timeout = omega arith

second_frame : (receiver_two.bucket_list 2).bucket_data ≡ some plain
unfolding receiver_two
second_frame = refl

-- The frame that waits is over its time at 9000.
receiver_worker-deadline_example :
    (last : ℕ) × (r2 : ElasticFrameProtocolReceiver) × (receiver_worker clock.grants
        (5000 ∷ [])
        0
        receiver_two
      ≡ some (last, r2))
    × IsReceiver r2
    × (lookup 2 r2.bucket_map ≡ none)
receiver_worker-deadline_example =
    receiver_worker-deadline clock.grants 5000 [] 0 receiver_two 2 2 two-IsReceiver two_no_hol
      second_there (omega (arith, second_timeout))

abbrev at_9000 : Env
at_9000 = record { now = 9000; grants = λ size. true }

deadline-handed_example :
    (r2 : ElasticFrameProtocolReceiver) × (before behind : List SuperFrame) × (handed : SuperFrame)
    × (receiver_worker_round at_9000 receiver_two ≡ some r2)
    × (lookup 2 r2.bucket_map ≡ none)
    × ((delivery_worker (length r2.super_frame_queue) r2).0
        ≡ receiver_two.super_frame_queue ++ (before ++ (handed ∷ behind)))
    × HandedFrom (receiver_two.bucket_list 2) plain handed
    × ((delivery_worker (length r2.super_frame_queue) r2).1.super_frame_queue ≡ [])
deadline-handed_example =
    deadline-handed at_9000 receiver_two 2 2 plain two-IsReceiver two_no_hol second_there
      second_frame second_timeout

run_to_completion_method-AtOnce_example :
    AtOnce clock receiver_two (run_to_completion_method clock receiver_two)
run_to_completion_method-AtOnce_example =
    run_to_completion_method-AtOnce clock receiver_two two-IsReceiver two_no_hol

-- In line, the first frame is over its time and the head-of-line time of 20 ms.
abbrev at_30000 : Env
at_30000 = record { now = 30000; grants = λ size. true }

line_facts :
    ((receiver_line.head_of_line_blocking_timeout_ms == 0) ≡ false)
    × (receiver_line.bucket_map ≡ (1, 1) ∷ (2, 2) ∷ [])
    × ((receiver_line.bucket_list 1).bucket_data ≡ some plain)
    × ((receiver_line.bucket_list 1).timeout
          + ms_to_us receiver_line.head_of_line_blocking_timeout_ms
        ≤ 30000)
unfolding receiver_two receiver_line receiver50
line_facts = (refl, refl, refl, omega arith)

receiver_worker_round-jump_example :
    (r2 : ElasticFrameProtocolReceiver) × (behind : List SuperFrame) × (receiver_worker_round
        at_30000 receiver_line
      ≡ some r2)
    × (r2.super_frame_queue
        ≡ receiver_line.super_frame_queue
          ++ (hand_over (receiver_line.bucket_list 1) plain ∷ behind))
    × (lookup 1 r2.bucket_map ≡ none)
    × IsReceiver r2
receiver_worker_round-jump_example =
    receiver_worker_round-jump at_30000 receiver_line 1 1 ((2, 2) ∷ []) plain line-IsReceiver
      line_facts.0 line_facts.1 line_facts.2 line_facts.3
