-- ===== src/CApi/SendData.antt =====
-- ElasticFrameProtocol.cpp, sendData of the sender: the callback that passes packets on to the send
-- function of the C API. `none` stands for undefined behaviour.
use efp.Prelude.{ℕ, Option, none, some, List, [], ◌∷◌, ◌++◌, ◌>>=◌}

-- A call of a send function, with its arguments.
pub record SendCall : Type 0 where
  pub function : ℕ
  pub packet : List ℕ
  pub stream_id : ℕ
  pub context : ℕ

-- c_sendCallback, which is a function or nullptr, and mCTX with its mUnsafePointer, there or nullptr.
-- A packet for which there is no function is dropped.
unfoldable pub send_data : Option ℕ → Option ℕ → List ℕ × ℕ → Option (List SendCall)
send_data none context (sub_packet, stream_id) = some []
send_data (some function) context (sub_packet, stream_id) = do
  pointer ← context
  some (
      record { function = function; packet = sub_packet; stream_id = stream_id; context = pointer }
      ∷ [])

-- The callback for each packet of a call, in the order in which they are sent.
unfoldable pub pass_on : Option ℕ → Option ℕ → List (List ℕ × ℕ) → Option (List SendCall)
pass_on callback context [] = some []
pass_on callback context (packet ∷ packets) = do
  first ← send_data callback context packet
  rest ← pass_on callback context packets
  some (first ++ rest)
