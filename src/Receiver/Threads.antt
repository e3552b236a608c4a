-- ===== src/Receiver/Threads.antt =====
-- ElasticFrameProtocol.cpp: the clock of receiverWorker, the ends of both threads, stopReceiver and
-- the destructor. A thread ends by itself once mThreadActive is off, at a time that is not the
-- receiver's to choose, so stopReceiver takes what it sees of the two flags at each of its tests.
use efp.Prelude.{
  ℕ, zero, suc, ◌+◌, ◌-◌, ◌*◌, ◌/◌, Bool, true, false, Option, none, some, List, [], ◌∷◌, ◌++◌, ltb,
  if◌then◌else◌, ◌>>=◌,
}
use efp.Message.{ElasticFrameMessages, no_error, failed_stopping_receiver, circular_buffer_size}
use efp.Receiver.{ElasticFrameProtocolReceiver}
use efp.Frames.{SuperFrame}
use efp.Receiver.Deliver.{receiver_worker_round, delivery_worker_round}

abbrev pub worker_thread_sleep_us : ℕ
worker_thread_sleep_us = 10000

-- One turn of the clock: the new lTimeReference, how long the thread sleeps, lTimeNow, and whether
-- the thread was overloaded, that is, whether a negative lTimeCompensation was set to 0.
pub record Turn : Type 0 where
  pub time_reference : ℕ
  pub sleeps : ℕ
  pub time_now : ℕ
  pub is_overloaded : Bool

unfoldable pub turn : ℕ → ℕ → Turn
turn time_reference time_sample =
    let next = time_reference + worker_thread_sleep_us in
    if ltb next time_sample
    then record {
      time_reference = time_sample;
      sleeps = 0;
      time_now = time_sample + 0;
      is_overloaded = true;
    }
    else record {
      time_reference = next;
      sleeps = next - time_sample;
      time_now = time_sample + (next - time_sample);
      is_overloaded = false;
    }

-- The loop of the worker thread, from one lTimeReference to the next, by what the clock shows in each
-- round: as many rounds as mThreadActive is found on.
unfoldable pub receiver_worker :
    (ℕ → Bool)
    → List ℕ
    → ℕ
    → ElasticFrameProtocolReceiver
    → Option (ℕ × ElasticFrameProtocolReceiver)
receiver_worker grants [] time_reference r = some (time_reference, r)
receiver_worker grants (sample ∷ samples) time_reference r = do
  let t = turn time_reference sample
  r1 ← receiver_worker_round (record { now = t.time_now; grants = grants }) r
  receiver_worker grants samples t.time_reference r1

-- The warning behind a round, by the number of buckets in use before it.
abbrev pub is_crowded : ℕ → Bool
is_crowded active_count = ltb (circular_buffer_size / 4 * 3) active_count

-- What the two threads do last.
abbrev pub end_of_worker : ElasticFrameProtocolReceiver → ElasticFrameProtocolReceiver
end_of_worker r = record r { is_worker_thread_active = false }

abbrev pub end_of_delivery : ElasticFrameProtocolReceiver → ElasticFrameProtocolReceiver
end_of_delivery r = record r { is_delivery_thread_active = false }

-- What stopReceiver sets before it waits; the flag wakes the delivery thread.
abbrev pub ask_to_stop : ElasticFrameProtocolReceiver → ElasticFrameProtocolReceiver
ask_to_stop r = record r { thread_active = false; super_frame_ready = true }

-- The result of stopReceiver, and how many times it slept 1000 us.
pub record Stopped : Type 0 where
  pub message : ElasticFrameMessages
  pub naps : ℕ

-- The loop, by the value of lLockProtect; `running k` says whether the test behind `k` sleeps finds a
-- thread active. lLockProtect starts at 1000 and the loop is left at 0.
unfoldable pub wait_for_threads : (ℕ → Bool) → ℕ → ℕ → Stopped
wait_for_threads running zero naps = record { message = failed_stopping_receiver; naps = naps }
wait_for_threads running (suc lock_protect) naps =
    let rest = wait_for_threads running lock_protect (naps + 1) in
    if running naps then rest else record { message = no_error; naps = naps }

abbrev pub lock_protect : ℕ
lock_protect = 1000

unfoldable pub stop_receiver :
    ElasticFrameProtocolReceiver → (ℕ → Bool) → Stopped × ElasticFrameProtocolReceiver
stop_receiver r running = (wait_for_threads running lock_protect 0, ask_to_stop r)

-- The destructor waits only for threads that were started and not stopped yet; it logs a failure.
unfoldable pub destroy : ElasticFrameProtocolReceiver → (ℕ → Bool) → ElasticFrameMessages
destroy r running = if r.thread_active then (stop_receiver r running).0.message else no_error

-- Rounds of the delivery thread, with the frames for receiveCallback.
unfoldable pub delivery_worker :
    ℕ → ElasticFrameProtocolReceiver → List SuperFrame × ElasticFrameProtocolReceiver
delivery_worker zero r = ([], r)
delivery_worker (suc rounds) r =
    let (frame, r1) = delivery_worker_round r in
    let (frames, r2) = delivery_worker rounds r1 in
    (elim frame [ none ↦ [] | some f ↦ f ∷ [] ] ++ frames, r2)
