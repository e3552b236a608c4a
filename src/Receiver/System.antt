-- ===== src/Receiver/System.antt =====
-- ElasticFrameProtocol.cpp, the class ElasticFrameProtocolReceiver with its threads: calls of
-- receiveFragmentFromPtr, rounds of receiverWorker, rounds of deliveryWorker and stopReceiver, in any
-- order. Each holds its mutex for the whole of a step.
use efp.Prelude.{ℕ, ◌≡◌, Bool, true, false, Option, none, some, List, [], ◌∷◌, ◌++◌}
use efp.Prelude.Bytes.{AllBytes}
use efp.Receiver.{ElasticFrameProtocolReceiver, threaded, new_receiver}
use efp.Frames.{SuperFrame, Env}
use efp.Receiver.Deliver.{receiver_worker_round, delivery_worker_round}
use efp.Receiver.Receive.{Received, receive_fragment_from_ptr}
use efp.Receiver.Threads.{turn, ask_to_stop, end_of_worker, end_of_delivery}

-- The receiver, the reference time of its worker thread, and the frames handed to receiveCallback.
pub record System : Type 0 where
  pub receiver : ElasticFrameProtocolReceiver
  pub time_reference : ℕ
  pub handed : List SuperFrame

abbrev pub handed_by : Option SuperFrame → List SuperFrame
handed_by none = []
handed_by (some frame) = frame ∷ []

pub data Step (s : System) : System → Type 0 where
  arrive :
      (env : Env) (p : List ℕ) (source : ℕ) (out : Received)
      → AllBytes p
      → receive_fragment_from_ptr env s.receiver p source ≡ some out
      → Step s (record s { receiver = out.receiver; handed = s.handed ++ out.delivered })
  work :
      (grants : ℕ → Bool) (sample : ℕ) (r : ElasticFrameProtocolReceiver)
      → s.receiver.is_worker_thread_active ≡ true
      → receiver_worker_round
          (record { now = (turn s.time_reference sample).time_now; grants = grants })
          s.receiver
        ≡ some r
      → Step s (record s {
        receiver = r;
        time_reference = (turn s.time_reference sample).time_reference;
      })
  hand :
      s.receiver.is_delivery_thread_active ≡ true
      → s.receiver.super_frame_ready ≡ true
      → Step s (record s {
        receiver = (delivery_worker_round s.receiver).1;
        handed = s.handed ++ handed_by (delivery_worker_round s.receiver).0;
      })
  stop : Step s (record s { receiver = ask_to_stop s.receiver })
  worker_ends :
      s.receiver.thread_active ≡ false → Step s (record s { receiver = end_of_worker s.receiver })
  delivery_ends :
      s.receiver.thread_active ≡ false → Step s (record s { receiver = end_of_delivery s.receiver })

pub data Run (s : System) : System → Type 0 where
  start : Run s s
  later : {t u : System} → Run s t → Step t u → Run s u

-- A receiver that was just made, with its threads.
abbrev pub new_system : ℕ → ℕ → ℕ → System
new_system bucket_timeout hol_timeout time_reference = record {
  receiver = new_receiver bucket_timeout hol_timeout threaded;
  time_reference = time_reference;
  handed = [];
}
