-- ===== src/Receiver/Deliver.antt =====
-- ElasticFrameProtocol.cpp, runToCompletionMethod and one round of receiverWorker: the pass over
-- the buckets in use, in ascending delivery order, that delivers what is complete or timed out. The
-- two differ in what they wait for before the first delivery in head-of-line mode, and in where the
-- frames go: to the callback at once, or to the queue of the delivery thread.
use efp.Prelude.{
  ℕ, ◌+◌, ◌%◌, ◌^◌, Bool, true, false, not, ◌&&◌, ◌||◌, Option, none, some, List, [], ◌∷◌, ◌++◌,
  length, leb, ltb, ◌==◌, if◌then◌else◌, update, erase, lookup, ms_to_us, ◌>>=◌,
}
use efp.Receiver.{ElasticFrameProtocolReceiver, Bucket}
use efp.Frames.{SuperFrame, Env}

-- All fragments have arrived. The first one is not counted.
abbrev pub is_complete : Bucket → Bool
is_complete b = b.fragment_counter == b.of_fragment_no

-- The frame handed over, with what the bucket knows of it.
abbrev pub hand_over : Bucket → SuperFrame → SuperFrame
hand_over b frame = record frame {
  data_content = b.data_content;
  broken = not (is_complete b);
  pts = b.pts;
  dts = b.dts;
  code = b.code;
  stream_id = b.stream;
  source = b.source;
  flags = b.flags;
  super_frame_no = b.saved_super_frame_no;
}

unfoldable pub assemble : Bucket → Option SuperFrame
assemble b = do frame ← b.bucket_data; some (hand_over b frame)

-- The state of a pass: the head-of-line variables, the frames delivered, the buckets to clear.
pub record Pass : Type 0 where
  pub first_run : Bool
  pub next_expected : ℕ
  pub delivered : List SuperFrame
  pub delete_list : List ℕ

-- What the pass does at a bucket: go on, deliver and go on, or stop.
pub data Verdict : Type 0 where
  skip : Verdict
  deliver : ℕ → Verdict
  block : Verdict

-- In head-of-line mode a frame is delivered when it is the next one and complete, or when its time
-- and the head-of-line time are over; the verdict holds the number expected next.
unfoldable pub judge : Env → ℕ → ℕ → Bucket → Verdict
judge env hol next b =
    if not (hol == 0)
    then (if (b.delivery_order == next) && is_complete b
        then Verdict.deliver ((next + 1) % 2 ^ 64)
        else if leb (b.timeout + ms_to_us hol) env.now
        then Verdict.deliver ((b.delivery_order + 1) % 2 ^ 64)
        else Verdict.block)
    else if leb b.timeout env.now || is_complete b
    then Verdict.deliver next
    else Verdict.skip

-- The head of the line is set on the first run, to the delivery order of the first bucket.
unfoldable pub set_head : ElasticFrameProtocolReceiver → List (ℕ × ℕ) → Pass → Pass
set_head r [] s = s
set_head r ((key, i) ∷ rest) s = record s {
  first_run = false;
  next_expected = (r.bucket_list i).delivery_order;
}

-- The loop over the map, by the entries left. `start` says whether a first run may set the head.
unfoldable pub pass_loop :
    Env → ElasticFrameProtocolReceiver → Bool → List (ℕ × ℕ) → Pass → Option Pass
pass_loop env r start [] s = some s
pass_loop env r start ((key, i) ∷ rest) s =
    let hol = r.head_of_line_blocking_timeout_ms in
    let b = r.bucket_list i in
    let blocked = s.first_run && (not (hol == 0) && not start) in
    let s1 = if s.first_run && not (hol == 0) then set_head r r.bucket_map s else s in
    if blocked then some s else elim (judge env hol s1.next_expected b) [
      | block ↦ some s1
      | skip ↦ pass_loop env r start rest s1
      | deliver next ↦ do
        frame ← assemble b
        pass_loop env r start rest (record s1 {
          next_expected = next;
          delivered = s1.delivered ++ (frame ∷ []);
          delete_list = s1.delete_list ++ (key ∷ []);
        })
    ]

-- The buckets that were delivered leave the map, and are free again.
unfoldable pub clear_buckets :
    ElasticFrameProtocolReceiver → List ℕ → Option ElasticFrameProtocolReceiver
clear_buckets r [] = some r
clear_buckets r (key ∷ keys) = do
  i ← lookup key r.bucket_map
  let b = r.bucket_list i
  clear_buckets
      (record r {
        bucket_map = erase key r.bucket_map;
        bucket_list = update r.bucket_list i (record b { active = false; bucket_data = none });
      })
      keys

-- One pass: the frames delivered, in their order, and the receiver behind it.
unfoldable pub pass_buckets :
    Env
    → ElasticFrameProtocolReceiver
    → Bool
    → Option (List SuperFrame × ElasticFrameProtocolReceiver)
pass_buckets env r start = do
  s ← pass_loop env r start r.bucket_map (record {
    first_run = r.delivery_hol_first_run;
    next_expected = r.next_expected_frame_number;
    delivered = [];
    delete_list = [];
  })
  r1 ←
      clear_buckets
        (record r {
          delivery_hol_first_run = s.first_run;
          next_expected_frame_number = s.next_expected;
        })
        s.delete_list
  some (s.delivered, r1)

-- Each frame goes to the receive function, or to the callback.
unfoldable pub run_to_completion_method :
    Env → ElasticFrameProtocolReceiver → Option (List SuperFrame × ElasticFrameProtocolReceiver)
run_to_completion_method env r = pass_buckets env r true

-- lHasTimedOut
unfoldable pub has_timed_out : Env → ElasticFrameProtocolReceiver → List (ℕ × ℕ) → Bool
has_timed_out env r [] = false
has_timed_out env r ((key, i) ∷ rest) =
    leb (r.bucket_list i).timeout env.now || has_timed_out env r rest

-- One round of the worker thread, between taking and releasing mNetMtx. It waits for two frames or
-- a timeout before the first delivery in head-of-line mode.
unfoldable pub receiver_worker_round :
    Env → ElasticFrameProtocolReceiver → Option ElasticFrameProtocolReceiver
receiver_worker_round env r = if length r.bucket_map == 0 then some r else (do
  (frames, r1) ←
      pass_buckets env r (ltb 1 (length r.bucket_map) || has_timed_out env r r.bucket_map)
  some (record r1 {
    super_frame_queue = r1.super_frame_queue ++ frames;
    super_frame_ready = r1.super_frame_ready || not (length frames == 0);
  }))

-- The queue without its first frame, and the flag that keeps the thread from waiting.
unfoldable pub pop_front :
    ElasticFrameProtocolReceiver
    → List SuperFrame
    → Option SuperFrame × ElasticFrameProtocolReceiver
pop_front r [] = (none, record r { super_frame_ready = false })
pop_front r (frame ∷ rest) = (
  some frame,
  record r {
    super_frame_queue = rest;
    super_frame_ready = r.super_frame_ready && not (length rest == 0);
  },
)

-- One round of the delivery thread, once mSuperFrameReady is set: the frame for the callback.
unfoldable pub delivery_worker_round :
    ElasticFrameProtocolReceiver → Option SuperFrame × ElasticFrameProtocolReceiver
delivery_worker_round r = pop_front r r.super_frame_queue
