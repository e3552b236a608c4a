-- ===== src/Transfer/Receiving.antt =====
-- Which half of its handler a packet of a frame takes, and that a repeated one changes nothing.
use efp.Prelude.{
  ℕ, ◌+◌, ◌*◌, ◌%◌, ◌≤◌, ◌<◌, ◌≡◌, ◌∙◌, arith, Bool, true, false, some, List, ◌++◌, ◌==◌, if_true,
  if_false, ltb, length, ◌≢◌,
}
use efp.Message.{duplicate_packet_received}
use efp.Wire.{encode_type1, encode_type2, encode_type3}
use efp.Receiver.{ElasticFrameProtocolReceiver, Bucket, super_frame_recalculator}
use efp.Frames.{Env}
use efp.Receiver.Unpack.Type1.{unpack_type1, fill_type1, fresh_type1, open_type1}
use efp.Receiver.Unpack.Type2.{unpack_type2, fill_type2, fresh_type2, open_type2}
use efp.Receiver.Unpack.Type3.{unpack_type3, fill_type3, fresh_type3, open_type3, this_fragment_no}
use efp.Transfer.{Frame, IsFrame, last_no, last_start, last_size, part, header1, header2, header3}
use efp.Transfer.Memory.{length-part}
use efp.Transfer.Headers.{decode_header1, decode_header2, decode_header3, last_data}
use efp.Transfer.Collected.{Collected}
use efp.Transfer.Filling.{tail_number, same_frame, in_bounds, seen, marked}
use efp.Transfer.Dispatch.{Running}

-- The bucket that the frame's number selects.
abbrev pub slot : Frame → ℕ
slot g = g.number % 8192

abbrev pub bucket_of : ElasticFrameProtocolReceiver → Frame → Bucket
bucket_of r g = r.bucket_list (slot g)

-- The bucket is free, and the frame is not the one that it delivered last.
pub record Free (g : Frame) (r : ElasticFrameProtocolReceiver) : Type 0 where
  pub running : Running r
  pub idle : (bucket_of r g).active ≡ false
  pub unseen : (super_frame_recalculator r g.number).0 ≢ (bucket_of r g).delivery_order

-- The bucket collects the frame, and has the fragments that `f` says.
pub record Holds (g : Frame) (r : ElasticFrameProtocolReceiver) (f : ℕ → Bool) : Type 0 where
  pub running : Running r
  pub collected : Collected g (bucket_of r g)
  pub received_is : (bucket_of r g).have_received_fragment ≡ f

pub recalculator-Running :
    (r : ElasticFrameProtocolReceiver) (n : ℕ)
    → Running r
    → Running (super_frame_recalculator r n).1
unfolding super_frame_recalculator
recalculator-Running r n run = record {
  worker = ground (arith, run.worker);
  delivery = ground (arith, run.delivery);
  mode = ground (arith, run.mode);
}

pub recalculator-buckets :
    (r : ElasticFrameProtocolReceiver) (n : ℕ)
    → (super_frame_recalculator r n).1.bucket_list ≡ r.bucket_list
unfolding super_frame_recalculator
recalculator-buckets r n = ground arith

-- What a packet leaves as it is, for the threads to find.
pub record Kept (r after : ElasticFrameProtocolReceiver) : Type 0 where
  pub timeout : after.head_of_line_blocking_timeout_ms ≡ r.head_of_line_blocking_timeout_ms
  pub queue : after.super_frame_queue ≡ r.super_frame_queue
  pub ready : after.super_frame_ready ≡ r.super_frame_ready

pub Kept-trans : (r s t : ElasticFrameProtocolReceiver) → Kept r s → Kept s t → Kept r t
Kept-trans r s t h k = record {
  timeout = k.timeout ∙ h.timeout;
  queue = k.queue ∙ h.queue;
  ready = k.ready ∙ h.ready;
}

pub recalculator-Kept :
    (r : ElasticFrameProtocolReceiver) (n : ℕ) → Kept r (super_frame_recalculator r n).1
unfolding super_frame_recalculator
recalculator-Kept r n = record {
  timeout = ground arith;
  queue = ground arith;
  ready = ground arith;
}

pub recalculator-map :
    (r : ElasticFrameProtocolReceiver) (n : ℕ)
    → (super_frame_recalculator r n).1.bucket_map ≡ r.bucket_map
unfolding super_frame_recalculator
recalculator-map r n = ground arith

last_long :
    (g : Frame)
    → IsFrame g
    → length (encode_type2 g.padding (header2 g) ++ part g (last_start g) (last_size g))
      ≡ 32 + last_size g
unfolding encode_type2
last_long g v =
    omega
      (arith, length-part g.content (last_start g) (last_size g) (omega (arith, (last_data g v).0)))

abbrev pub packet1 : Frame → ℕ → List ℕ
packet1 g i = encode_type1 (header1 g i) ++ part g (i * g.fragment_size) g.fragment_size

abbrev pub packet2 : Frame → List ℕ
packet2 g = encode_type2 g.padding (header2 g) ++ part g (last_start g) (last_size g)

abbrev pub packet3 : Frame → List ℕ
packet3 g = encode_type3 (header3 g) ++ part g (g.whole * g.fragment_size) g.tail

-- Each handler, from the point where the bucket is known to be free or in use.
module _ (g : Frame) (v : IsFrame g) (env : Env) (r : ElasticFrameProtocolReceiver)
    (source : ℕ) where
  abbrev order : ℕ
  order = (super_frame_recalculator r g.number).0

  abbrev moved : ElasticFrameProtocolReceiver
  moved = (super_frame_recalculator r g.number).1

  new_order : Free g r → (order == (bucket_of r g).delivery_order) ≡ false
  new_order free = ground (arith, free.unseen)

  whole_packet : ltb (length (packet2 g)) (32 + last_size g) ≡ false
  whole_packet = ground (arith, last_long g v)

  pub unpack1-Free :
      (i : ℕ)
      → i < g.whole
      → Free g r
      → unpack_type1 env r (packet1 g i) source
        ≡ open_type1 env moved (packet1 g i) source (header1 g i) (slot g) (bucket_of r g) order
  unfolding unpack_type1 fresh_type1 header1
  unpack1-Free i h free =
      rw (decode_header1 g v i (part g (i * g.fragment_size) g.fragment_size) h)
        (if_false free.idle _ ∙ if_false (new_order free) _)

  pub unpack1_held :
      (i : ℕ)
      → i < g.whole
      → Collected g (bucket_of r g)
      → unpack_type1 env r (packet1 g i) source
        ≡ fill_type1 r (packet1 g i) (header1 g i) (slot g) (bucket_of r g)
  unfolding unpack_type1 header1
  unpack1_held i h k =
      rw (decode_header1 g v i (part g (i * g.fragment_size) g.fragment_size) h)
        (if_true k.active_is _)

  pub unpack2-Free :
      Free g r
      → unpack_type2 env r (packet2 g) source
        ≡ open_type2 env moved (packet2 g) source (header2 g) (slot g) (bucket_of r g) order
  unfolding unpack_type2 fresh_type2 header2
  unpack2-Free free =
      rw (decode_header2 g v (part g (last_start g) (last_size g)))
        (if_false whole_packet _ ∙ if_false free.idle _ ∙ if_false (new_order free) _)

  pub unpack2_held :
      Collected g (bucket_of r g)
      → unpack_type2 env r (packet2 g) source
        ≡ fill_type2 r (packet2 g) (header2 g) (slot g) (bucket_of r g)
  unfolding unpack_type2 header2
  unpack2_held k =
      rw (decode_header2 g v (part g (last_start g) (last_size g)))
        (if_false whole_packet _ ∙ if_true k.active_is _)

  pub unpack3-Free :
      Free g r
      → unpack_type3 env r (packet3 g) source
        ≡ open_type3 env moved (packet3 g) source (header3 g) (slot g) (bucket_of r g) order
  unfolding unpack_type3 fresh_type3 header3
  unpack3-Free free =
      rw (decode_header3 g v (part g (g.whole * g.fragment_size) g.tail))
        (if_false free.idle _ ∙ if_false (new_order free) _)

  pub unpack3_held :
      Collected g (bucket_of r g)
      → unpack_type3 env r (packet3 g) source
        ≡ fill_type3 r (packet3 g) (header3 g) (slot g) (bucket_of r g)
  unfolding unpack_type3 header3
  unpack3_held k =
      rw (decode_header3 g v (part g (g.whole * g.fragment_size) g.tail)) (if_true k.active_is _)

  -- A repeated fragment is recognised, and the receiver stays as it was.
  pub repeat1 :
      (i : ℕ)
      → i < g.whole
      → (k : Collected g (bucket_of r g)) → (bucket_of r g).have_received_fragment i ≡ true
      → fill_type1 r (packet1 g i) (header1 g i) (slot g) (bucket_of r g)
        ≡ some (duplicate_packet_received, r)
  unfolding fill_type1 header1
  repeat1 i h k old =
      let small : i ≤ last_no g = ground arith in
      let b : Bucket = bucket_of r g in
      if_false (same_frame g v r (slot g) b k) _
      ∙ if_false (in_bounds g v r (slot g) b k i small) _
      ∙ rw (seen g v r (slot g) b k i small, marked g v r (slot g) b k i small) (if_true old _)

  pub repeat2 :
      (k : Collected g (bucket_of r g))
      → (bucket_of r g).have_received_fragment (last_no g) ≡ true
      → fill_type2 r (packet2 g) (header2 g) (slot g) (bucket_of r g)
        ≡ some (duplicate_packet_received, r)
  unfolding fill_type2 header2
  repeat2 k old =
      let small : last_no g ≤ last_no g = omega arith in
      let b : Bucket = bucket_of r g in
      if_false (same_frame g v r (slot g) b k) _
      ∙ if_false (in_bounds g v r (slot g) b k (last_no g) small) _
      ∙ rw (seen g v r (slot g) b k (last_no g) small, marked g v r (slot g) b k (last_no g) small)
          (if_true old _)

  pub repeat3 :
      (k : Collected g (bucket_of r g))
      → g.has_type3 ≡ true
      → (bucket_of r g).have_received_fragment g.whole ≡ true
      → fill_type3 r (packet3 g) (header3 g) (slot g) (bucket_of r g)
        ≡ some (duplicate_packet_received, r)
  unfolding fill_type3 header3
  repeat3 k needed old =
      let small : g.whole ≤ last_no g = ground arith in
      let b : Bucket = bucket_of r g in
      let number : this_fragment_no (header3 g) ≡ g.whole = tail_number g v r (slot g) b k needed in
      rw number (
        if_false (same_frame g v r (slot g) b k) _
        ∙ if_false (in_bounds g v r (slot g) b k g.whole small) _
        ∙ rw (seen g v r (slot g) b k g.whole small, marked g v r (slot g) b k g.whole small)
            (if_true old _))
