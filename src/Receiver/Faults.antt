-- ===== src/Receiver/Faults.antt =====
-- Packets whose data or stream lies outside what the receiver has room for.
use efp.Prelude.{
  ℕ, ◌+◌, ◌*◌, ◌%◌, ◌≤◌, ◌<◌, ◌≡◌, refl, arith, true, false, none, some, List, ◌∷◌, length, drop,
  leb, ltb, ◌==◌, bit_and, not, ◌&&◌,
}
use efp.Wire.{
  ElasticFrameType1, decode_type1, decode_type2, decode_type3, type1_size, type2_size, type3_size,
}
use efp.Receiver.{
  ElasticFrameProtocolReceiver, Bucket, stream_at, received_at, mark_received, store_payload,
  super_frame_recalculator, is_threaded,
}
use efp.Frames.{Memory, SuperFrame, Env, write}
use efp.Receiver.Unpack.Type1.{open_type1, fresh_type1, fill_type1, unpack_type1}
use efp.Receiver.Unpack.Type2.{open_type2, fresh_type2, unpack_type2}
use efp.Receiver.Unpack.Type3.{open_type3, fresh_type3, unpack_type3}
use efp.Receiver.Receive.{receive_by_type, receive_fragment_from_ptr}

-- The packet passes all tests for a further fragment of the bucket's frame.
pub record Passes (b : Bucket) (h : ElasticFrameType1) : Type 0 where
  pub in_use : b.active ≡ true
  pub same_frame : h.super_frame_no == b.saved_super_frame_no ≡ true
  pub same_count : h.of_fragment_no == b.of_fragment_no ≡ true
  pub in_count : ltb b.of_fragment_no h.fragment_no ≡ false
  pub has_bit : ltb h.fragment_no 65535 ≡ true
  pub is_new : b.have_received_fragment h.fragment_no ≡ false

-- A packet of type 1 that passes all tests for a further fragment of the frame that a bucket collects,
-- and whose data reaches behind the memory of that frame, is copied there: undefined behaviour. No
-- test compares its size with that of the fragments before it.
pub unpack_type1-overrun :
    (env : Env) (r : ElasticFrameProtocolReceiver) (p : List ℕ) (source : ℕ) (frame : SuperFrame)
    (memory : Memory)
    → let h = decode_type1 p in
      let b = r.bucket_list (h.super_frame_no % 8192) in
      Passes b h
      → b.bucket_data ≡ some frame
      → frame.frame_data ≡ some memory
      → memory.capacity < b.fragment_size * h.fragment_no + length (drop type1_size p)
      → unpack_type1 env r p source ≡ none
unfolding unpack_type1 fill_type1 received_at mark_received store_payload write
unpack_type1-overrun env r p source frame memory t there here long =
    let h = decode_type1 p in
    let b = r.bucket_list (h.super_frame_no % 8192) in
    let over : leb (b.fragment_size * h.fragment_no + length (drop type1_size p)) memory.capacity
        ≡ false =
      ground (arith, long) in
    rw (t.in_use, t.same_frame, t.same_count, t.in_count, t.has_bit, t.is_new, there, here, over)
      refl

-- The packet's frame has a free bucket and is not answered as too old.
pub record IsAccepted (r : ElasticFrameProtocolReceiver) (number : ℕ) : Type 0 where
  pub is_free : (r.bucket_list (number % 8192)).active ≡ false
  pub is_new :
      ((super_frame_recalculator r number).0 == (r.bucket_list (number % 8192)).delivery_order)
      ≡ false

-- A packet of stream 255, whole and of the given type, that opens a bucket.
pub data Opens255 (r : ElasticFrameProtocolReceiver) (p : List ℕ) : ℕ → Type 0 where
  opens1 :
      type1_size ≤ length p
      → (decode_type1 p).stream ≡ 255
      → IsAccepted r (decode_type1 p).super_frame_no
      → Opens255 r p 1
  opens2 :
      type2_size + (decode_type2 p).size_of_data ≤ length p
      → (decode_type2 p).stream_id ≡ 255
      → IsAccepted r (decode_type2 p).super_frame_no
      → Opens255 r p 2
  opens3 :
      type3_size ≤ length p
      → (decode_type3 p).stream_id ≡ 255
      → IsAccepted r (decode_type3 p).super_frame_no
      → Opens255 r p 3

by_type-255 :
    (env : Env) (r : ElasticFrameProtocolReceiver) (p : List ℕ) (source : ℕ) {kind : ℕ}
    → Opens255 r p kind
    → receive_by_type env r kind p source ≡ none
unfolding receive_by_type unpack_type1 fresh_type1 open_type1 unpack_type2 fresh_type2 open_type2
    unpack_type3 fresh_type3 open_type3 stream_at
by_type-255 env r p source (opens1 long stream a) =
    let whole : ltb (length p) type1_size ≡ false = ground (arith, long) in
    rw (whole, a.is_free, a.is_new, stream) refl
by_type-255 env r p source (opens2 long stream a) =
    let whole : ltb (length p) type2_size ≡ false = ground (arith, long) in
    let room : ltb (length p) (type2_size + (decode_type2 p).size_of_data) ≡ false =
      ground (arith, long) in
    rw (whole, room, a.is_free, a.is_new, stream) refl
by_type-255 env r p source (opens3 long stream a) =
    let whole : ltb (length p) type3_size ≡ false = ground (arith, long) in
    rw (whole, a.is_free, a.is_new, stream) refl

-- mStreams has an element for the streams 0 to 254 only: a whole packet of stream 255, of any of the
-- three types, that a running receiver takes as the first of a frame whose bucket is free is undefined
-- behaviour.
pub stream_255_faults :
    (env : Env) (r : ElasticFrameProtocolReceiver) (first : ℕ) (rest : List ℕ) (source kind : ℕ)
    → not (r.is_worker_thread_active && r.is_delivery_thread_active) && is_threaded r.current_mode
      ≡ false
    → bit_and first 0x0f ≡ kind
    → Opens255 r (first ∷ rest) kind
    → receive_fragment_from_ptr env r (first ∷ rest) source ≡ none
unfolding receive_fragment_from_ptr
stream_255_faults env r first rest source kind running type_is opens =
    rw (running, type_is) (by_type-255 env r (first ∷ rest) source opens)
