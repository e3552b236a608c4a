-- ===== src/Receiver/Unpack/Type2.antt =====
-- ElasticFrameProtocol.cpp, unpackType2: the last fragment of a frame, with its time stamps.
use efp.Prelude.{
  ℕ, ◌+◌, ◌*◌, ◌%◌, bit_and, Bool, true, not, ◌||◌, Option, some, List, length, take, drop, ltb,
  ◌==◌, if◌then◌else◌, update, u32_max, u64_max, sub_u64, ◌>>=◌,
}
use efp.Message.{
  ElasticFrameMessages, too_old_fragment, memory_allocation_error, buffer_out_of_bounds,
  buffer_out_of_resources, duplicate_packet_received, type2_frame_out_of_bounds, no_error,
}
use efp.Wire.{ElasticFrameType2, decode_type2, type2_size}
use efp.Receiver.{
  ElasticFrameProtocolReceiver, Bucket, super_frame_recalculator, set_bucket, drop_bucket,
  enter_bucket, stream_at, received_at, mark_received, store_payload, resize, lacks_memory,
  none_received, deadline,
}
use efp.Frames.{Env, new_super_frame}

-- The DTS is sent as its distance below the PTS.
abbrev pub dts_of : ElasticFrameType2 → ℕ
dts_of h = if h.dts_pts_diff == u32_max then u64_max else sub_u64 h.pts h.dts_pts_diff

-- mStreams[hStreamID] takes the content and the code.
abbrev pub note_stream :
    ElasticFrameProtocolReceiver → ElasticFrameType2 → ElasticFrameProtocolReceiver
note_stream r h = record r {
  streams = update r.streams h.stream_id (record { code = h.code; data_content = h.data_content });
}

abbrev pub payload2 : List ℕ → ElasticFrameType2 → List ℕ
payload2 p h = take h.size_of_data (drop type2_size p)

unfoldable pub opened2 :
    Env → ElasticFrameProtocolReceiver → ElasticFrameType2 → ℕ → ℕ → Bucket → (ℕ → Bool) → Bucket
opened2 env r h source order b received = record b {
  delivery_order = order;
  active = true;
  source = source;
  flags = bit_and h.frame_type 0xf0;
  stream = h.stream_id;
  data_content = h.data_content;
  code = h.code;
  saved_super_frame_no = h.super_frame_no;
  have_received_fragment = received;
  pts = h.pts;
  dts = dts_of h;
  timeout = deadline env r;
  of_fragment_no = h.of_fragment_no;
  fragment_counter = 0;
  fragment_size = h.type1_packet_size;
  bucket_data =
      some (new_super_frame env (h.type1_packet_size * h.of_fragment_no + h.size_of_data));
}

unfoldable pub open_type2 :
    Env
    → ElasticFrameProtocolReceiver
    → List ℕ
    → ℕ
    → ElasticFrameType2
    → ℕ
    → Bucket
    → ℕ
    → Option (ElasticFrameMessages × ElasticFrameProtocolReceiver)
open_type2 env r p source h i b order = do
  stream ← stream_at r h.stream_id
  received ← mark_received none_received h.of_fragment_no
  let b1 = opened2 env r h source order b received
  let r1 = enter_bucket (note_stream r h) i b1
  if lacks_memory b1
      then some (memory_allocation_error, drop_bucket r1 i b1)
      else store_payload r1 i b1 (h.type1_packet_size * h.of_fragment_no) (payload2 p h)

unfoldable pub fresh_type2 :
    Env
    → ElasticFrameProtocolReceiver
    → List ℕ
    → ℕ
    → ElasticFrameType2
    → ℕ
    → Bucket
    → Option (ElasticFrameMessages × ElasticFrameProtocolReceiver)
fresh_type2 env r p source h i b =
    let (order, r1) = super_frame_recalculator r h.super_frame_no in
    if order == b.delivery_order
    then some (too_old_fragment, r1)
    else open_type2 env r1 p source h i b order

-- What a type 2 packet changes in the bucket of its frame, but for the data.
unfoldable pub filled2 : ElasticFrameType2 → Bucket → (ℕ → Bool) → Bucket
filled2 h b received = record b {
  have_received_fragment = received;
  pts = h.pts;
  dts = dts_of h;
  code = h.code;
  flags = bit_and h.frame_type 0xf0;
  fragment_counter = (b.fragment_counter + 1) % 65536;
  stream = h.stream_id;
  data_content = h.data_content;
}

-- The size of the frame is known now; without data it stays as it was.
unfoldable pub take_type2 :
    ElasticFrameProtocolReceiver
    → List ℕ
    → ElasticFrameType2
    → ℕ
    → Bucket
    → Option (ElasticFrameMessages × ElasticFrameProtocolReceiver)
take_type2 r p h i b = do
  stream ← stream_at r h.stream_id
  if h.size_of_data == 0
      then some (no_error, set_bucket (note_stream r h) i b)
      else store_payload (note_stream r h) i
          (resize b (b.fragment_size * h.of_fragment_no + h.size_of_data))
          (h.type1_packet_size * h.of_fragment_no) (payload2 p h)

unfoldable pub fill_type2 :
    ElasticFrameProtocolReceiver
    → List ℕ
    → ElasticFrameType2
    → ℕ
    → Bucket
    → Option (ElasticFrameMessages × ElasticFrameProtocolReceiver)
fill_type2 r p h i b =
    if not (h.super_frame_no == b.saved_super_frame_no)
    then some (buffer_out_of_resources, r)
    else if ltb b.of_fragment_no h.of_fragment_no || not (h.of_fragment_no == b.of_fragment_no)
    then some (buffer_out_of_bounds, drop_bucket r i b)
    else (do
      seen ← received_at b.have_received_fragment h.of_fragment_no
      received ← mark_received b.have_received_fragment h.of_fragment_no
      if seen
          then some (duplicate_packet_received, r)
          else take_type2 r p h i (filled2 h b received))

unfoldable pub unpack_type2 :
    Env
    → ElasticFrameProtocolReceiver
    → List ℕ
    → ℕ
    → Option (ElasticFrameMessages × ElasticFrameProtocolReceiver)
unpack_type2 env r p source =
    let h = decode_type2 p in
    let i = h.super_frame_no % 8192 in
    let b = r.bucket_list i in
    if ltb (length p) (type2_size + h.size_of_data)
    then some (type2_frame_out_of_bounds, r)
    else if b.active
    then fill_type2 r p h i b
    else fresh_type2 env r p source h i b
