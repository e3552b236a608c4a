-- ===== src/Receiver/Receive.antt =====
-- ElasticFrameProtocol.cpp, receiveFragmentFromPtr: the packet's type decides who unpacks it, and in
-- RUN_TO_COMPLETION mode the delivery pass follows at once.
use efp.Prelude.{
  ℕ, bit_and, not, ◌&&◌, Option, none, some, List, [], ◌∷◌, length, ltb, ◌==◌, if◌then◌else◌, ◌>>=◌,
}
use efp.Message.{
  ElasticFrameMessages, receiver_not_running, type0_frame, frame_size_mismatch, unknown_frame_type,
}
use efp.Wire.{type0, type1, type2, type3, type1_size, type2_size, type3_size}
use efp.Receiver.{ElasticFrameProtocolReceiver, is_threaded}
use efp.Frames.{SuperFrame, Env}
use efp.Receiver.Unpack.Type1.{unpack_type1}
use efp.Receiver.Unpack.Type2.{unpack_type2}
use efp.Receiver.Unpack.Type3.{unpack_type3}
use efp.Receiver.Deliver.{run_to_completion_method}

pub record Received : Type 0 where
  pub message : ElasticFrameMessages
  pub receiver : ElasticFrameProtocolReceiver
  pub delivered : List SuperFrame

abbrev answer : ElasticFrameMessages → ElasticFrameProtocolReceiver → Option Received
answer m r = some (record { message = m; receiver = r; delivered = [] })

-- The delivery pass of RUN_TO_COMPLETION mode, whatever the message is.
unfoldable pub complete :
    Env → ElasticFrameMessages × ElasticFrameProtocolReceiver → Option Received
complete env (m, r) = if is_threaded r.current_mode then answer m r else (do
  (frames, r1) ← run_to_completion_method env r
  some (record { message = m; receiver = r1; delivered = frames }))

unfoldable pub receive_by_type :
    Env → ElasticFrameProtocolReceiver → ℕ → List ℕ → ℕ → Option Received
receive_by_type env r kind p source =
    if kind == type0
    then answer type0_frame r
    else if kind == type1
    then (if ltb (length p) type1_size
        then answer frame_size_mismatch r
        else (unpack_type1 env r p source >>= complete env))
    else if kind == type2
    then (if ltb (length p) type2_size
        then answer frame_size_mismatch r
        else (unpack_type2 env r p source >>= complete env))
    else if kind == type3
    then (if ltb (length p) type3_size
        then answer frame_size_mismatch r
        else (unpack_type3 env r p source >>= complete env))
    else answer unknown_frame_type r

-- The first byte is read before any test of the size, so an empty packet is undefined behaviour.
unfoldable pub receive_fragment_from_ptr :
    Env → ElasticFrameProtocolReceiver → List ℕ → ℕ → Option Received
receive_fragment_from_ptr env r p source =
    if not (r.is_worker_thread_active && r.is_delivery_thread_active) && is_threaded r.current_mode
    then answer receiver_not_running r
    else elim p [
      | [] ↦ none
      | first ∷ rest ↦ receive_by_type env r (bit_and first 0x0f) (first ∷ rest) source
    ]
