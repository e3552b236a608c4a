-- ===== src/Receiver/GotData.antt =====
-- ElasticFrameProtocol.cpp, gotData of the receiver and sendData of the sender: the callbacks that
-- pass frames and packets on to the functions of the C API. A call is recorded with its arguments, a
-- pointer into the frame as the frame's memory with an offset. `none` stands for undefined behaviour.
use efp.Prelude.{
  ℕ, ◌-◌, bit_and, Bool, true, false, not, ◌&&◌, Option, none, some, List, [], ◌∷◌, ltb, ◌==◌,
  if◌then◌else◌, ◌>>=◌,
}
use efp.Message.{ElasticFrameMessages, no_error, inline_payload}
use efp.Frames.{Memory, SuperFrame}
use efp.Embedded.{extract_embedded_data}

-- c_receiveCallback and c_receiveEmbeddedDataCallback, each a function or nullptr, and mCTX with its
-- mUnsafePointer, there or nullptr.
pub record Callbacks : Type 0 where
  pub receive : Option ℕ
  pub receive_embedded_data : Option ℕ
  pub context : Option ℕ

pub record EmbeddedDataCall : Type 0 where
  pub function : ℕ
  pub section : List ℕ
  pub data_type : ℕ
  pub pts : ℕ
  pub context : ℕ

pub record ReceiveCall : Type 0 where
  pub function : ℕ
  pub frame_data : Option Memory
  pub offset : ℕ
  pub size : ℕ
  pub data_content : ℕ
  pub broken : ℕ
  pub pts : ℕ
  pub dts : ℕ
  pub code : ℕ
  pub stream_id : ℕ
  pub source : ℕ
  pub flags : ℕ
  pub context : ℕ

-- The calls that gotData makes: those for the sections, then the one for the payload.
pub record Calls : Type 0 where
  pub embedded : List EmbeddedDataCall
  pub payload : Option ReceiveCall

abbrev pub no_calls : Calls
no_calls = record { embedded = []; payload = none }

abbrev pub payload_call : ℕ → SuperFrame → ℕ → ℕ → ReceiveCall
payload_call function frame position context = record {
  function = function;
  frame_data = frame.frame_data;
  offset = position;
  size = frame.frame_size - position;
  data_content = frame.data_content;
  broken = if frame.broken then 1 else 0;
  pts = frame.pts;
  dts = frame.dts;
  code = frame.code;
  stream_id = frame.stream_id;
  source = frame.source;
  flags = frame.flags;
  context = context;
}

-- The loop over the sections; embeddedContentFlag[x] is read without a test, and so is mCTX.
unfoldable pub embedded_calls :
    ℕ → Option ℕ → ℕ → List (List ℕ) → List ℕ → Option (List EmbeddedDataCall)
embedded_calls function context pts [] contents = some []
embedded_calls function context pts (section ∷ sections) [] = none
embedded_calls function context pts (section ∷ sections) (content ∷ contents) = do
  pointer ← context
  rest ← embedded_calls function context pts sections contents
  some (
      record {
        function = function;
        section = section;
        data_type = content;
        pts = pts;
        context = pointer;
      }
      ∷ rest)

abbrev pub is_no_error : ElasticFrameMessages → Bool
is_no_error no_error = true
is_no_error _ = false

-- The frame has sections in front, and they can be trusted.
abbrev pub has_embedded_data : SuperFrame → Bool
has_embedded_data frame = not (bit_and frame.flags inline_payload == 0) && not frame.broken

-- The sections first, to the function `g`, then the payload behind them, to `f`; nothing when the
-- sections cannot be taken apart, and no payload when they reach behind the frame.
unfoldable pub got_embedded_data : ℕ → ℕ → Option ℕ → SuperFrame → Option Calls
got_embedded_data f g context frame = do
  x ← extract_embedded_data frame 0
  if not (is_no_error x.message) then some no_calls else (do
    calls ← embedded_calls g context frame.pts x.sections x.contents
    if ltb frame.frame_size x.payload_position
        then some (record { embedded = calls; payload = none })
        else (do
          pointer ← context
          some (record {
            embedded = calls;
            payload = some (payload_call f frame x.payload_position pointer);
          })))

-- Without c_receiveCallback the frame is dropped; without c_receiveEmbeddedDataCallback the sections
-- are part of the payload.
unfoldable pub got_data : Callbacks → SuperFrame → Option Calls
got_data callbacks frame = elim callbacks.receive [
  | none ↦ some no_calls
  | some f ↦ elim (if has_embedded_data frame then callbacks.receive_embedded_data else none) [
    | none ↦ (do
      pointer ← callbacks.context
      some (record { embedded = []; payload = some (payload_call f frame 0 pointer) }))
    | some g ↦ got_embedded_data f g callbacks.context frame
  ]
]
