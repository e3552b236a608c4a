-- ===== src/Runs/Faults.antt =====
-- A late copy of a packet, and packets that leave the receiver's memory.
use efp.Prelude.{
  ℕ, ◌≡◌, refl, arith, true, false, none, some, List, [], ◌∷◌, ◌%◌, lookup, erase, update, not,
  ◌&&◌,
}
use efp.Prelude.Bytes.{le_value}
use efp.Message.{too_old_fragment}
use efp.Wire.{decode_type1}
use efp.Receiver.{
  ElasticFrameProtocolReceiver, Bucket, new_receiver, new_bucket, super_frame_recalculator,
  is_threaded,
}
use efp.Frames.{SuperFrame}
use efp.Receiver.Unpack.Type1.{unpack_type1}
use efp.Receiver.Deliver.{
  receiver_worker_round, pass_buckets, pass_loop, judge, assemble, clear_buckets, has_timed_out,
}
use efp.Receiver.Receive.{receive_by_type, receive_fragment_from_ptr}
use efp.Receiver.Numbering.{At}
use efp.Receiver.Late.{Carries, carries1, receiver_worker_round-late}
use efp.Receiver.Faults.{Passes, unpack_type1-overrun, Opens255, opens1, stream_255_faults}
use efp.Receiver.Threads.{turn}
use efp.Embedded.RoundTrip.{of_list}
use efp.Embedded.Loop.{holding}
use efp.Runs.{clock, receiver50}
use efp.Runs.Sections.{plain}
use efp.Runs.Pass.{full_bucket, receiver_two}
use efp.Runs.Rounds.{two-IsReceiver}
use efp.Runs.Schedule.{fragment, worked, worked_is}

worked-At : At worked 2
unfolding worked receiver_worker_round pass_buckets pass_loop judge assemble clear_buckets
    has_timed_out lookup erase receiver_two receiver50 new_receiver new_bucket turn
worked-At = record { started = refl; number_is = refl; bits_are = refl }

worked_facts :
    (lookup 1 receiver_two.bucket_map ≡ some 1)
    × (lookup 1 worked.bucket_map ≡ none)
    × (efp.Receiver.is_threaded worked.current_mode ≡ true)
unfolding worked receiver_worker_round pass_buckets pass_loop judge assemble clear_buckets
    has_timed_out lookup erase receiver_two receiver50 new_receiver new_bucket turn
worked_facts = (refl, refl, refl)

fragment-Carries : Carries fragment 1 1
unfolding decode_type1 le_value
fragment-Carries = carries1 (omega arith) refl

receiver_worker_round-late_example :
    (r3 : ElasticFrameProtocolReceiver) × (receive_by_type clock worked 1 fragment 9
      ≡ some (record { message = too_old_fragment; receiver = r3; delivered = [] }))
    × (r3.bucket_map ≡ worked.bucket_map)
    × (r3.bucket_list ≡ worked.bucket_list)
receiver_worker_round-late_example =
    receiver_worker_round-late (record { now = (turn 0 5000).time_now; grants = clock.grants })
      clock receiver_two worked fragment 9 2 1 1 1 two-IsReceiver worked_facts.0 worked_is
      worked_facts.1 worked-At (omega arith) (omega arith) (omega arith) (omega arith)
      worked_facts.2 fragment-Carries

-- A bucket with four bytes for a frame of fragments of two, and three bytes for its second fragment.
abbrev short_frame : SuperFrame
short_frame = holding plain (0 ∷ 0 ∷ 0 ∷ 0 ∷ [])

abbrev short_bucket : Bucket
short_bucket = record full_bucket {
  have_received_fragment = λ i. false;
  bucket_data = some short_frame;
}

unfoldable receiver_short : ElasticFrameProtocolReceiver
unfolding receiver50
receiver_short = record receiver50 {
  bucket_map = (1, 1) ∷ [];
  bucket_list = update receiver50.bucket_list 1 short_bucket;
}

abbrev long_fragment : List ℕ
long_fragment = 0x01 ∷ 3 ∷ 1 ∷ 0 ∷ 1 ∷ 0 ∷ 2 ∷ 0 ∷ 7 ∷ 7 ∷ 7 ∷ []

short-Passes :
    Passes
      (receiver_short.bucket_list ((decode_type1 long_fragment).super_frame_no % 8192))
      (decode_type1 long_fragment)
unfolding receiver_short receiver50 decode_type1 le_value
short-Passes = record {
  in_use = refl;
  same_frame = refl;
  same_count = refl;
  in_count = refl;
  has_bit = refl;
  is_new = refl;
}

unpack_type1-overrun_example : unpack_type1 clock receiver_short long_fragment 9 ≡ none
unfolding receiver_short receiver50 decode_type1 le_value
unpack_type1-overrun_example =
    unpack_type1-overrun clock receiver_short long_fragment 9 short_frame
      (of_list (0 ∷ 0 ∷ 0 ∷ 0 ∷ [])) short-Passes refl refl (omega arith)

-- A packet of type 1 of stream 255.
abbrev bytes_255 : List ℕ
bytes_255 = 0x01 ∷ 255 ∷ 1 ∷ 0 ∷ 0 ∷ 0 ∷ 2 ∷ 0 ∷ 7 ∷ []

bytes_255-Opens255 : Opens255 receiver50 bytes_255 1
unfolding receiver50 new_receiver new_bucket decode_type1 le_value super_frame_recalculator
bytes_255-Opens255 = opens1 (omega arith) refl (record { is_free = refl; is_new = refl })

receiver50_runs :
    not (receiver50.is_worker_thread_active && receiver50.is_delivery_thread_active)
      && is_threaded receiver50.current_mode
    ≡ false
unfolding receiver50 new_receiver
receiver50_runs = refl

stream_255_faults_example : receive_fragment_from_ptr clock receiver50 bytes_255 9 ≡ none
stream_255_faults_example =
    stream_255_faults clock receiver50 0x01 (255 ∷ 1 ∷ 0 ∷ 0 ∷ 0 ∷ 2 ∷ 0 ∷ 7 ∷ []) 9 1
      receiver50_runs refl bytes_255-Opens255
