-- ===== src/CApi.antt =====
-- ElasticFrameProtocol.cpp, the C API: handles for senders and receivers. `none` stands for undefined
-- behaviour, here find(...)->second of a handle that is not in the map, besides that of the classes.
-- A function of the user is a number, or nullptr.
pub mod Handles
pub mod SendData
pub mod Sending
use efp.Prelude.{
  ℕ, ◌+◌, ◌*◌, ◌%◌, ◌^◌, Option, none, some, List, [], ◌∷◌, lookup, insert, erase, ◌==◌,
  if◌then◌else◌, ◌>>=◌,
}
use efp.Message.{ElasticFrameMessages, no_error}
use efp.Sender.{ElasticFrameProtocolSender, Request, new_sender, pack_and_send_from_ptr}
use efp.Receiver.{
  ElasticFrameProtocolReceiver, EfpReceiverMode, threaded, run_to_completion, new_receiver,
}
use efp.Frames.{SuperFrame, Env}
use efp.Receiver.GotData.{Callbacks, Calls, got_data}
use efp.CApi.SendData.{SendCall, pass_on}
use efp.Receiver.Receive.{receive_fragment_from_ptr}

-- A sender with its c_sendCallback and the mUnsafePointer of its mCTX.
pub record SendBase : Type 0 where
  pub sender : ElasticFrameProtocolSender
  pub c_send_callback : Option ℕ
  pub context : ℕ

-- A receiver with the callbacks and the context that gotData uses.
pub record ReceiveBase : Type 0 where
  pub receiver : ElasticFrameProtocolReceiver
  pub callbacks : Callbacks

pub record CApi : Type 0 where
  pub efp_receive_base_map : List (ℕ × ReceiveBase)
  pub efp_send_base_map : List (ℕ × SendBase)
  pub c_object_handle : ℕ

abbrev pub efp_mode_run_to_complete : ℕ
efp_mode_run_to_complete = 2

-- std::map::insert: an entry that is there stays.
unfoldable pub insert_new {ℓ} : {V : Type ℓ} → ℕ → V → List (ℕ × V) → List (ℕ × V)
insert_new key value m = elim (lookup key m) [ none ↦ insert key value m | some old ↦ m ]

-- `f` is the send function, `ctx` what it gets with each packet.
unfoldable pub efp_init_send : CApi → ℕ → Option ℕ → ℕ → ℕ × CApi
efp_init_send api mtu f ctx = (
  api.c_object_handle,
  record api {
    efp_send_base_map = insert_new api.c_object_handle base api.efp_send_base_map;
    c_object_handle = (api.c_object_handle + 1) % 2 ^ 64;
  },
)
  where
    base : SendBase
    base = record { sender = new_sender (mtu % 65536); c_send_callback = f; context = ctx }

abbrev pub receive_mode : ℕ → EfpReceiverMode
receive_mode mode = if mode == efp_mode_run_to_complete then run_to_completion else threaded

-- `f` is the function for frames, `g` the one for embedded data, `ctx` what both get.
unfoldable pub efp_init_receive : CApi → ℕ → ℕ → Option ℕ → Option ℕ → ℕ → ℕ → ℕ × CApi
efp_init_receive api bucket_timeout hol_timeout f g ctx mode = (
  api.c_object_handle,
  record api {
    efp_receive_base_map = insert_new api.c_object_handle base api.efp_receive_base_map;
    c_object_handle = (api.c_object_handle + 1) % 2 ^ 64;
  },
)
  where
    base : ReceiveBase
    base = record {
      receiver = new_receiver bucket_timeout hol_timeout (receive_mode mode);
      callbacks = record { receive = f; receive_embedded_data = g; context = some ctx };
    }

-- The message, the calls of the send function, and the API state.
unfoldable pub efp_send_data :
    CApi → ℕ → Request → Option (ElasticFrameMessages × List SendCall × CApi)
efp_send_data api efp_object q = do
  efp_base ← lookup efp_object api.efp_send_base_map
  x ← pack_and_send_from_ptr efp_base.sender q
  calls ← pass_on efp_base.c_send_callback (some efp_base.context) x.sent
  some (
    x.message,
    calls,
    record api {
      efp_send_base_map =
          insert efp_object (record efp_base { sender = x.sender }) api.efp_send_base_map;
    },
  )

-- gotData for each frame that a call delivers, in their order.
unfoldable pub got_all : Callbacks → List SuperFrame → Option (List Calls)
got_all callbacks [] = some []
got_all callbacks (frame ∷ frames) = do
  first ← got_data callbacks frame
  rest ← got_all callbacks frames
  some (first ∷ rest)

-- The message, the calls of the user's functions that are made before it is answered (with threads
-- there are none), and the API state.
unfoldable pub efp_receive_fragment :
    Env → CApi → ℕ → List ℕ → ℕ → Option (ElasticFrameMessages × List Calls × CApi)
efp_receive_fragment env api efp_object packet from_source = do
  efp_base ← lookup efp_object api.efp_receive_base_map
  x ← receive_fragment_from_ptr env efp_base.receiver packet from_source
  calls ← got_all efp_base.callbacks x.delivered
  some (
    x.message,
    calls,
    record api {
      efp_receive_base_map =
          insert efp_object (record efp_base { receiver = x.receiver }) api.efp_receive_base_map;
    },
  )

unfoldable pub efp_end_send : CApi → ℕ → Option (ElasticFrameMessages × CApi)
efp_end_send api efp_object = do
  efp_base ← lookup efp_object api.efp_send_base_map
  some (no_error, record api { efp_send_base_map = erase efp_object api.efp_send_base_map })

unfoldable pub efp_end_receive : CApi → ℕ → Option (ElasticFrameMessages × CApi)
efp_end_receive api efp_object = do
  efp_base ← lookup efp_object api.efp_receive_base_map
  some (no_error, record api { efp_receive_base_map = erase efp_object api.efp_receive_base_map })

abbrev pub efp_get_version : ℕ
efp_get_version = 0 * 256 + 4
