-- ===== src/Receiver/Unpack/Type3.antt =====
-- ElasticFrameProtocol.cpp, unpackType3: the last but one fragment of a frame whose remaining data
-- does not fit a type 2 packet.
use efp.Prelude.{
  ℕ, ◌+◌, ◌-◌, ◌*◌, ◌%◌, ◌^◌, bit_and, Bool, true, not, ◌||◌, Option, some, List, length, drop, ltb,
  ◌==◌, if◌then◌else◌, u64_max, ◌>>=◌,
}
use efp.Message.{
  ElasticFrameMessages, too_old_fragment, memory_allocation_error, buffer_out_of_bounds,
  buffer_out_of_resources, duplicate_packet_received,
}
use efp.Wire.{ElasticFrameType3, decode_type3, type3_size}
use efp.Receiver.{
  ElasticFrameProtocolReceiver, Bucket, Stream, super_frame_recalculator, drop_bucket, enter_bucket,
  stream_at, received_at, mark_received, store_payload, resize, lacks_memory, none_received,
  deadline,
}
use efp.Frames.{Env, new_super_frame}

-- lThisFragmentNo, a uint16_t.
abbrev pub this_fragment_no : ElasticFrameType3 → ℕ
this_fragment_no h = (h.of_fragment_no + 65535) % 65536

-- mFragmentSize * (hOfFragmentNo - 1) + data, in size_t: the int -1 is 2 ^ 64 - 1 there.
abbrev pub size_with_tail : ℕ → ℕ → ℕ → ℕ
size_with_tail fragment_size of_fragment_no tail =
    (fragment_size * ((of_fragment_no + (2 ^ 64 - 1)) % 2 ^ 64) + tail) % 2 ^ 64

unfoldable pub opened3 :
    Env
    → ElasticFrameProtocolReceiver
    → ElasticFrameType3
    → ℕ
    → ℕ
    → ℕ
    → Bucket
    → Stream
    → (ℕ → Bool)
    → Bucket
opened3 env r h packet_size source order b stream received = record b {
  delivery_order = order;
  active = true;
  source = source;
  flags = bit_and h.frame_type 0xf0;
  stream = h.stream_id;
  data_content = stream.data_content;
  code = stream.code;
  saved_super_frame_no = h.super_frame_no;
  have_received_fragment = received;
  pts = u64_max;
  dts = u64_max;
  timeout = deadline env r;
  fragment_counter = 0;
  of_fragment_no = h.of_fragment_no;
  fragment_size = h.type1_packet_size;
  bucket_data = some (
      new_super_frame env
        (size_with_tail h.type1_packet_size h.of_fragment_no (packet_size - type3_size)));
}

unfoldable pub open_type3 :
    Env
    → ElasticFrameProtocolReceiver
    → List ℕ
    → ℕ
    → ElasticFrameType3
    → ℕ
    → Bucket
    → ℕ
    → Option (ElasticFrameMessages × ElasticFrameProtocolReceiver)
open_type3 env r p source h i b order = do
  stream ← stream_at r h.stream_id
  received ← mark_received none_received (this_fragment_no h)
  let b1 = opened3 env r h (length p) source order b stream received
  let r1 = enter_bucket r i b1
  if lacks_memory b1
      then some (memory_allocation_error, drop_bucket r1 i b1)
      else store_payload r1 i b1 (b1.fragment_size * this_fragment_no h) (drop type3_size p)

unfoldable pub fresh_type3 :
    Env
    → ElasticFrameProtocolReceiver
    → List ℕ
    → ℕ
    → ElasticFrameType3
    → ℕ
    → Bucket
    → Option (ElasticFrameMessages × ElasticFrameProtocolReceiver)
fresh_type3 env r p source h i b =
    let (order, r1) = super_frame_recalculator r h.super_frame_no in
    if order == b.delivery_order
    then some (too_old_fragment, r1)
    else open_type3 env r1 p source h i b order

unfoldable pub fill_type3 :
    ElasticFrameProtocolReceiver
    → List ℕ
    → ElasticFrameType3
    → ℕ
    → Bucket
    → Option (ElasticFrameMessages × ElasticFrameProtocolReceiver)
fill_type3 r p h i b =
    if not (h.super_frame_no == b.saved_super_frame_no)
    then some (buffer_out_of_resources, r)
    else if ltb b.of_fragment_no (this_fragment_no h) || not (h.of_fragment_no == b.of_fragment_no)
    then some (buffer_out_of_bounds, drop_bucket r i b)
    else (do
      seen ← received_at b.have_received_fragment (this_fragment_no h)
      received ← mark_received b.have_received_fragment (this_fragment_no h)
      let b1 = record b {
        have_received_fragment = received;
        fragment_counter = (b.fragment_counter + 1) % 65536;
      }
      if seen
          then some (duplicate_packet_received, r)
          else store_payload r i
              (resize b1 (size_with_tail b.fragment_size h.of_fragment_no (length p - type3_size)))
              (b.fragment_size * this_fragment_no h) (drop type3_size p))

unfoldable pub unpack_type3 :
    Env
    → ElasticFrameProtocolReceiver
    → List ℕ
    → ℕ
    → Option (ElasticFrameMessages × ElasticFrameProtocolReceiver)
unpack_type3 env r p source =
    let h = decode_type3 p in
    let i = h.super_frame_no % 8192 in
    let b = r.bucket_list i in
    if b.active then fill_type3 r p h i b else fresh_type3 env r p source h i b
