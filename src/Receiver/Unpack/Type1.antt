-- ===== src/Receiver/Unpack/Type1.antt =====
-- ElasticFrameProtocol.cpp, unpackType1: a fragment of a frame larger than the MTU.
use efp.Prelude.{
  ℕ, ◌+◌, ◌-◌, ◌*◌, ◌%◌, bit_and, Bool, true, not, ◌||◌, Option, some, List, length, drop, ltb,
  ◌==◌, if◌then◌else◌, u64_max, ◌>>=◌,
}
use efp.Message.{
  ElasticFrameMessages, too_old_fragment, memory_allocation_error, buffer_out_of_bounds,
  buffer_out_of_resources, duplicate_packet_received,
}
use efp.Wire.{ElasticFrameType1, decode_type1, type1_size}
use efp.Receiver.{
  ElasticFrameProtocolReceiver, Bucket, Stream, super_frame_recalculator, drop_bucket, enter_bucket,
  stream_at, received_at, mark_received, store_payload, lacks_memory, none_received, deadline,
}
use efp.Frames.{SuperFrame, Env, new_super_frame}

-- The bucket as a first fragment sets it up. The last fragment's size is not known yet, so there is
-- room for one more full fragment than the frame size says.
unfoldable pub opened1 :
    Env
    → ElasticFrameProtocolReceiver
    → ElasticFrameType1
    → ℕ
    → ℕ
    → ℕ
    → Bucket
    → Stream
    → (ℕ → Bool)
    → Bucket
opened1 env r h packet_size source order b stream received = record b {
  delivery_order = order;
  active = true;
  source = source;
  flags = bit_and h.frame_type 0xf0;
  stream = h.stream;
  data_content = stream.data_content;
  code = stream.code;
  saved_super_frame_no = h.super_frame_no;
  have_received_fragment = received;
  pts = u64_max;
  dts = u64_max;
  timeout = deadline env r;
  fragment_counter = 0;
  of_fragment_no = h.of_fragment_no;
  fragment_size = packet_size - type1_size;
  bucket_data = some (record frame { frame_size = (packet_size - type1_size) * h.of_fragment_no });
}
  where
    frame : SuperFrame
    frame = new_super_frame env ((packet_size - type1_size) * (h.of_fragment_no + 1))

unfoldable pub open_type1 :
    Env
    → ElasticFrameProtocolReceiver
    → List ℕ
    → ℕ
    → ElasticFrameType1
    → ℕ
    → Bucket
    → ℕ
    → Option (ElasticFrameMessages × ElasticFrameProtocolReceiver)
open_type1 env r p source h i b order = do
  stream ← stream_at r h.stream
  received ← mark_received none_received h.fragment_no
  let b1 = opened1 env r h (length p) source order b stream received
  let r1 = enter_bucket r i b1
  if lacks_memory b1
      then some (memory_allocation_error, drop_bucket r1 i b1)
      else if ltb b1.of_fragment_no h.fragment_no
      then some (buffer_out_of_bounds, drop_bucket r1 i b1)
      else store_payload r1 i b1 (b1.fragment_size * h.fragment_no) (drop type1_size p)

unfoldable pub fresh_type1 :
    Env
    → ElasticFrameProtocolReceiver
    → List ℕ
    → ℕ
    → ElasticFrameType1
    → ℕ
    → Bucket
    → Option (ElasticFrameMessages × ElasticFrameProtocolReceiver)
fresh_type1 env r p source h i b =
    let (order, r1) = super_frame_recalculator r h.super_frame_no in
    if order == b.delivery_order
    then some (too_old_fragment, r1)
    else open_type1 env r1 p source h i b order

unfoldable pub fill_type1 :
    ElasticFrameProtocolReceiver
    → List ℕ
    → ElasticFrameType1
    → ℕ
    → Bucket
    → Option (ElasticFrameMessages × ElasticFrameProtocolReceiver)
fill_type1 r p h i b =
    if not (h.super_frame_no == b.saved_super_frame_no)
    then some (buffer_out_of_resources, r)
    else if ltb b.of_fragment_no h.fragment_no || not (h.of_fragment_no == b.of_fragment_no)
    then some (buffer_out_of_bounds, drop_bucket r i b)
    else (do
      seen ← received_at b.have_received_fragment h.fragment_no
      received ← mark_received b.have_received_fragment h.fragment_no
      let b1 = record b {
        have_received_fragment = received;
        fragment_counter = (b.fragment_counter + 1) % 65536;
      }
      if seen
          then some (duplicate_packet_received, r)
          else store_payload r i b1 (b.fragment_size * h.fragment_no) (drop type1_size p))

unfoldable pub unpack_type1 :
    Env
    → ElasticFrameProtocolReceiver
    → List ℕ
    → ℕ
    → Option (ElasticFrameMessages × ElasticFrameProtocolReceiver)
unpack_type1 env r p source =
    let h = decode_type1 p in
    let i = h.super_frame_no % 8192 in
    let b = r.bucket_list i in
    if b.active then fill_type1 r p h i b else fresh_type1 env r p source h i b
