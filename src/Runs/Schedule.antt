-- ===== src/Runs/Schedule.antt =====
-- A packet, a round of the worker thread and one of the delivery thread.
use efp.Prelude.{
  ℕ, ◌≡◌, refl, arith, true, ◌||◌, none, some, List, [], ◌∷◌, ◌++◌, length, ◌==◌, lookup, insert,
  erase,
}
use efp.Prelude.Bytes.{AllBytes, no_bytes, one_byte, le_value}
use efp.Wire.{decode_type1}
use efp.Receiver.{
  ElasticFrameProtocolReceiver, new_receiver, new_bucket, super_frame_recalculator, stream_at,
  mark_received, enter_bucket, lacks_memory, store_payload,
}
use efp.Frames.{new_super_frame, write}
use efp.Receiver.Unpack.Type1.{unpack_type1, fresh_type1, open_type1, opened1}
use efp.Receiver.Deliver.{
  receiver_worker_round, pass_buckets, pass_loop, judge, assemble, clear_buckets, has_timed_out,
  delivery_worker_round,
}
use efp.Receiver.Receive.{Received, receive_fragment_from_ptr, receive_by_type, complete}
use efp.Receiver.Invariant.{IsReceiver}
use efp.Receiver.Keeping.Packet.{receive_fragment-IsReceiver}
use efp.Receiver.System.{System, handed_by, arrive, work, hand, Run, start, later, new_system}
use efp.Receiver.Schedules.{IsSystem, Leads, run-Leads, run-safe}
use efp.Receiver.Threads.{turn}
use efp.Runs.{clock, receiver50}
use efp.Runs.Pass.{receiver_two}
use efp.Runs.Rounds.{two-IsReceiver, receiver50-IsReceiver}

-- The first of two fragments of a frame, of two bytes each.
abbrev pub fragment : List ℕ
fragment = 0x01 ∷ 3 ∷ 1 ∷ 0 ∷ 0 ∷ 0 ∷ 2 ∷ 0 ∷ 7 ∷ 7 ∷ []

fragment-AllBytes : AllBytes fragment
fragment-AllBytes = one_byte (omega arith) (
    one_byte (omega arith) (
      one_byte (omega arith) (
        one_byte (omega arith) (
          one_byte (omega arith) (
            one_byte (omega arith) (
              one_byte (omega arith) (
                one_byte (omega arith)
                  (one_byte (omega arith) (one_byte (omega arith) no_bytes)))))))))

unfoldable out : Received
unfolding receive_fragment_from_ptr receive_by_type unpack_type1 decode_type1 le_value fresh_type1
    super_frame_recalculator open_type1 stream_at mark_received opened1 enter_bucket lacks_memory
    new_super_frame store_payload write complete receiver50 new_receiver new_bucket insert
out = elim (receive_fragment_from_ptr clock receiver50 fragment 9) [
  | none ↦ record { message = efp.Message.no_error; receiver = receiver50; delivered = [] }
  | some x ↦ x
]

out_is : receive_fragment_from_ptr clock receiver50 fragment 9 ≡ some out
unfolding out receive_fragment_from_ptr receive_by_type unpack_type1 decode_type1 le_value
    fresh_type1 super_frame_recalculator open_type1 stream_at mark_received opened1 enter_bucket
    lacks_memory new_super_frame store_payload write complete receiver50 new_receiver new_bucket
    insert
out_is = refl

receive_fragment-IsReceiver_example : IsReceiver out.receiver
receive_fragment-IsReceiver_example =
    receive_fragment-IsReceiver receiver50 receiver50-IsReceiver clock fragment 9 out
      fragment-AllBytes out_is

abbrev begun : System
begun = new_system 50 0 0

abbrev with_fragment : System
with_fragment = record begun { receiver = out.receiver; handed = [] ++ out.delivered }

with_fragment-Run : Run begun with_fragment
unfolding receiver50
with_fragment-Run = later start (arrive clock fragment 9 out fragment-AllBytes out_is)

run-safe_example :
    ((r : ElasticFrameProtocolReceiver) × (receiver_worker_round clock with_fragment.receiver
        ≡ some r))
    × (length with_fragment.receiver.super_frame_queue == 0
          || with_fragment.receiver.super_frame_ready
        ≡ true)
run-safe_example = run-safe 50 0 0 with_fragment clock with_fragment-Run

-- The first of two buckets is complete and the second over its time: a round queues both frames, the
-- next hands over the first.
abbrev two_system : System
two_system = record { receiver = receiver_two; time_reference = 0; handed = [] }

two-IsSystem : IsSystem two_system
unfolding receiver_two receiver50 new_receiver
two-IsSystem = record { in_order = two-IsReceiver; has_threads = refl }

unfoldable pub worked : ElasticFrameProtocolReceiver
unfolding receiver_worker_round pass_buckets pass_loop judge assemble clear_buckets has_timed_out
    lookup erase receiver_two receiver50 new_receiver new_bucket turn
worked =
    elim (receiver_worker_round (record { now = (turn 0 5000).time_now; grants = clock.grants })
      receiver_two) [ none ↦ receiver_two | some r ↦ r ]

pub worked_is :
    receiver_worker_round
      (record { now = (turn 0 5000).time_now; grants = clock.grants })
      receiver_two
    ≡ some worked
unfolding worked receiver_worker_round pass_buckets pass_loop judge assemble clear_buckets
    has_timed_out lookup erase receiver_two receiver50 new_receiver new_bucket turn
worked_is = refl

worked_flags :
    (receiver_two.is_worker_thread_active ≡ true)
    × (worked.is_delivery_thread_active ≡ true)
    × (worked.super_frame_ready ≡ true)
    × (length worked.super_frame_queue ≡ 2)
unfolding worked receiver_worker_round pass_buckets pass_loop judge assemble clear_buckets
    has_timed_out lookup erase receiver_two receiver50 new_receiver new_bucket turn
worked_flags = (refl, refl, refl, refl)

abbrev queued : System
queued = record two_system { receiver = worked; time_reference = (turn 0 5000).time_reference }

abbrev delivered : System
delivered = record queued {
  receiver = (delivery_worker_round worked).1;
  handed = [] ++ handed_by (delivery_worker_round worked).0;
}

delivered-Run : Run two_system delivered
delivered-Run =
    later (later start (work clock.grants 5000 worked worked_flags.0 worked_is))
      (hand worked_flags.1 worked_flags.2)

run-Leads_example : Leads two_system delivered
run-Leads_example = run-Leads two_system delivered two-IsSystem delivered-Run
