-- ===== src/Receiver.antt =====
-- ElasticFrameProtocol.h and ElasticFrameProtocol.cpp, class ElasticFrameProtocolReceiver: its
-- state, and the parts that its handlers share. `none` stands for undefined behaviour: an access
-- outside an array, a bit set or a frame's memory, or through a null pointer.
pub mod Unpack
pub mod Deliver
pub mod Receive
pub mod Numbering
pub mod Passes
pub mod HeadOfLine
pub mod GotData
pub mod Callbacks
pub mod Threads
pub mod Stopping
pub mod Kept
pub mod Invariant
pub mod Keeping
pub mod Picking
pub mod Clearing
pub mod Rounds
pub mod Late
pub mod Jump
pub mod Faults
pub mod Flat
pub mod AtOnce
pub mod Deadline
pub mod System
pub mod Schedules
use efp.Prelude.{
  ℕ, ◌+◌, ◌-◌, ◌*◌, ◌%◌, ◌^◌, Bool, true, false, Option, none, some, List, [], length, get_elem?,
  ltb, leb, ◌==◌, if◌then◌else◌, ◌&&◌, update, insert, erase, u16_max, u32_max, u64_max, sub_u64,
  ms_to_us, ◌>>=◌,
}
use efp.Frames.{SuperFrame, Memory, write, Env, new_super_frame}
use efp.Message.{ElasticFrameMessages, no_error, unknown_content}

-- mHaveReceivedFragment is a function on the indices below UINT16_MAX; mTimeout counts microseconds.
pub record Bucket : Type 0 where
  pub active : Bool
  pub data_content : ℕ
  pub saved_super_frame_no : ℕ
  pub timeout : ℕ
  pub fragment_counter : ℕ
  pub of_fragment_no : ℕ
  pub delivery_order : ℕ
  pub fragment_size : ℕ
  pub pts : ℕ
  pub dts : ℕ
  pub code : ℕ
  pub stream : ℕ
  pub source : ℕ
  pub flags : ℕ
  pub have_received_fragment : ℕ → Bool
  pub bucket_data : Option SuperFrame

pub record Stream : Type 0 where
  pub code : ℕ
  pub data_content : ℕ

pub data EfpReceiverMode : Type 0 where
  threaded run_to_completion : EfpReceiverMode

abbrev pub is_threaded : EfpReceiverMode → Bool
is_threaded threaded = true
is_threaded run_to_completion = false

-- mBucketMap holds the index in mBucketList of the bucket that it points to.
pub record ElasticFrameProtocolReceiver : Type 0 where
  pub streams : ℕ → Stream
  pub bucket_map : List (ℕ × ℕ)
  pub bucket_list : ℕ → Bucket
  pub bucket_timeout_ms : ℕ
  pub head_of_line_blocking_timeout_ms : ℕ
  pub old_super_frame_number : ℕ
  pub super_frame_recalc : ℕ
  pub super_frame_first_time : Bool
  pub is_worker_thread_active : Bool
  pub is_delivery_thread_active : Bool
  pub thread_active : Bool
  pub delivery_hol_first_run : Bool
  pub next_expected_frame_number : ℕ
  pub super_frame_queue : List SuperFrame
  pub super_frame_ready : Bool
  pub current_mode : EfpReceiverMode

unfoldable pub new_bucket : Bucket
new_bucket = record {
  active = false;
  data_content = unknown_content;
  saved_super_frame_no = 0;
  timeout = 0;
  fragment_counter = 0;
  of_fragment_no = 0;
  delivery_order = u64_max;
  fragment_size = 0;
  pts = u64_max;
  dts = u64_max;
  code = u32_max;
  stream = 0;
  source = 0;
  flags = 0;
  have_received_fragment = λ i. false;
  bucket_data = none;
}

-- The constructor; in THREADED mode it starts both threads.
unfoldable pub new_receiver : ℕ → ℕ → EfpReceiverMode → ElasticFrameProtocolReceiver
new_receiver bucket_timeout_ms hol_timeout_ms mode = record {
  streams = λ i. record { code = u32_max; data_content = unknown_content };
  bucket_map = [];
  bucket_list = λ i. new_bucket;
  bucket_timeout_ms = bucket_timeout_ms;
  head_of_line_blocking_timeout_ms = hol_timeout_ms;
  old_super_frame_number = 0;
  super_frame_recalc = 0;
  super_frame_first_time = true;
  is_worker_thread_active = is_threaded mode;
  is_delivery_thread_active = is_threaded mode;
  thread_active = is_threaded mode;
  delivery_hol_first_run = true;
  next_expected_frame_number = 0;
  super_frame_queue = [];
  super_frame_ready = false;
  current_mode = mode;
}

-- superFrameRecalculator: the 64-bit number that the receiver gives to a 16-bit super frame number.
-- The change is int16_t: a distance of 2 ^ 15 or more modulo 2 ^ 16 counts backwards.
unfoldable pub super_frame_recalculator :
    ElasticFrameProtocolReceiver → ℕ → ℕ × ElasticFrameProtocolReceiver
super_frame_recalculator r super_frame =
    if r.super_frame_first_time
    then (
      super_frame,
      record r {
        old_super_frame_number = super_frame;
        super_frame_recalc = super_frame;
        super_frame_first_time = false;
      },
    )
    else (moved, record r { old_super_frame_number = super_frame; super_frame_recalc = moved })
  where
    change : ℕ
    change = (super_frame + 65536 - r.old_super_frame_number) % 65536

    moved : ℕ
    moved =
        if ltb change 32768
        then (r.super_frame_recalc + change) % 2 ^ 64
        else sub_u64 r.super_frame_recalc (65536 - change)

-- mBucketList[i] = b
abbrev pub set_bucket : ElasticFrameProtocolReceiver → ℕ → Bucket → ElasticFrameProtocolReceiver
set_bucket r i b = record r { bucket_list = update r.bucket_list i b }

-- mBucketMap.erase(pThisBucket->mDeliveryOrder); pThisBucket->mActive = false;
unfoldable pub drop_bucket :
    ElasticFrameProtocolReceiver → ℕ → Bucket → ElasticFrameProtocolReceiver
drop_bucket r i b = record r {
  bucket_map = erase b.delivery_order r.bucket_map;
  bucket_list = update r.bucket_list i (record b { active = false });
}

-- pThisBucket->mDeliveryOrder is set; mBucketMap[pThisBucket->mDeliveryOrder] = pThisBucket.
unfoldable pub enter_bucket :
    ElasticFrameProtocolReceiver → ℕ → Bucket → ElasticFrameProtocolReceiver
enter_bucket r i b = record r {
  bucket_map = insert b.delivery_order i r.bucket_map;
  bucket_list = update r.bucket_list i b;
}

-- mStreams has UINT8_MAX elements.
unfoldable pub stream_at : ElasticFrameProtocolReceiver → ℕ → Option Stream
stream_at r i = if ltb i 255 then some (r.streams i) else none

-- mHaveReceivedFragment[i] and mHaveReceivedFragment[i] = true, in a bit set of UINT16_MAX bits.
unfoldable pub received_at : (ℕ → Bool) → ℕ → Option Bool
received_at received i = if ltb i u16_max then some (received i) else none

unfoldable pub mark_received : (ℕ → Bool) → ℕ → Option (ℕ → Bool)
mark_received received i = if ltb i u16_max then some (update received i true) else none

-- std::copy_n into the memory of the bucket's frame, the last thing that a handler does.
unfoldable pub store_payload :
    ElasticFrameProtocolReceiver
    → ℕ
    → Bucket
    → ℕ
    → List ℕ
    → Option (ElasticFrameMessages × ElasticFrameProtocolReceiver)
store_payload r i b start payload = do
  frame ← b.bucket_data
  memory ← frame.frame_data
  written ← write memory start payload
  some (
    no_error,
    set_bucket r i (record b { bucket_data = some (record frame { frame_data = some written }) }),
  )

-- pThisBucket->mBucketData->mFrameSize = size
unfoldable pub resize : Bucket → ℕ → Bucket
resize b size = record b {
  bucket_data = elim b.bucket_data [ none ↦ none | some f ↦ some (record f { frame_size = size }) ];
}

-- pThisBucket->mBucketData->pFrameData == nullptr
unfoldable pub lacks_memory : Bucket → Bool
lacks_memory b = elim b.bucket_data [
  | none ↦ true
  | some f ↦ elim f.frame_data [ none ↦ true | some m ↦ false ]
]

abbrev pub none_received : ℕ → Bool
none_received i = false

-- The bucket's deadline: the addition is 64 bits wide, the product of the timeout 32.
abbrev pub deadline : Env → ElasticFrameProtocolReceiver → ℕ
deadline env r = env.now + ms_to_us r.bucket_timeout_ms
