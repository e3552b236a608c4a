-- ===== src/Receiver/Keeping/Filling.antt =====
-- A later fragment of a frame and the invariant of the receiver.
use efp.Prelude.{
  ℕ, ◌+◌, ◌-◌, ◌*◌, ◌%◌, ◌≡◌, refl, ap, true, not, ◌||◌, Option, none, some, List, ◌==◌, drop,
  length, ltb,
}
use efp.Message.{buffer_out_of_bounds, no_error, duplicate_packet_received, buffer_out_of_resources}
use efp.Wire.{ElasticFrameType1, ElasticFrameType2, ElasticFrameType3, type1_size, type3_size}
use efp.Receiver.{
  ElasticFrameProtocolReceiver, Bucket, resize, stream_at, mark_received, received_at,
}
use efp.Frames.{SuperFrame}
use efp.Receiver.Kept.{Holds}
use efp.Receiver.Invariant.{Outside, Stands}
use efp.Receiver.Unpack.Type1.{fill_type1}
use efp.Receiver.Unpack.Type2.{payload2, note_stream, filled2, take_type2, fill_type2}
use efp.Receiver.Unpack.Type3.{this_fragment_no, size_with_tail, fill_type3}
use efp.Receiver.Keeping.{
  Keeps, answer-Keeps, if-Keeps, bind-Keeps, filled_dropped, filled_set, filled_stored, in_use,
}

-- A new size of the frame does not matter.
resize-Holds : (b : Bucket) (key i size : ℕ) → Holds b key i → Holds (resize b size) key i
unfolding resize
resize-Holds b key i size h = record {
  in_use = h.in_use;
  order_is = h.order_is;
  place_is = h.place_is;
  frame = record (h.frame) { frame_size = size };
  has_frame =
      ap
        (λ (o : Option SuperFrame). elim o [
          | none ↦ none
          | some f ↦ some (record f { frame_size = size })
        ])
        h.has_frame;
}

module _ {w : Outside} (r : ElasticFrameProtocolReceiver) (p : List ℕ) (i : ℕ) (v : Stands w r)
    (used : (r.bucket_list i).active ≡ true) where
  pub fill_type1-Keeps : (h : ElasticFrameType1) → Keeps w (fill_type1 r p h i (r.bucket_list i))
  unfolding fill_type1
  fill_type1-Keeps h =
      let b = r.bucket_list i in
      let holds = in_use r i v used in
      if-Keeps (not (h.super_frame_no == b.saved_super_frame_no)) _ _
        (answer-Keeps buffer_out_of_resources v)
        (if-Keeps (ltb b.of_fragment_no h.fragment_no || not (h.of_fragment_no == b.of_fragment_no))
          _ _ (answer-Keeps buffer_out_of_bounds (filled_dropped r i v used))
          (bind-Keeps (received_at b.have_received_fragment h.fragment_no) _ (λ seen.
            bind-Keeps (mark_received b.have_received_fragment h.fragment_no) _ (λ received.
              if-Keeps seen _ _ (answer-Keeps duplicate_packet_received v) (
                filled_stored r i v used
                  (record b {
                    have_received_fragment = received;
                    fragment_counter = (b.fragment_counter + 1) % 65536;
                  })
                  (b.fragment_size * h.fragment_no) (drop type1_size p)
                  (record {
                    in_use = holds.in_use;
                    order_is = refl;
                    place_is = holds.place_is;
                    frame = holds.frame;
                    has_frame = holds.has_frame;
                  }))))))

  pub fill_type3-Keeps : (h : ElasticFrameType3) → Keeps w (fill_type3 r p h i (r.bucket_list i))
  unfolding fill_type3 resize
  fill_type3-Keeps h =
      let b = r.bucket_list i in
      let holds = in_use r i v used in
      let k = this_fragment_no h in
      if-Keeps (not (h.super_frame_no == b.saved_super_frame_no)) _ _
        (answer-Keeps buffer_out_of_resources v)
        (if-Keeps (ltb b.of_fragment_no k || not (h.of_fragment_no == b.of_fragment_no)) _ _
          (answer-Keeps buffer_out_of_bounds (filled_dropped r i v used))
          (bind-Keeps (received_at b.have_received_fragment k) _ (λ seen.
            bind-Keeps (mark_received b.have_received_fragment k) _ (λ received.
              let b1 = record b {
                have_received_fragment = received;
                fragment_counter = (b.fragment_counter + 1) % 65536;
              } in
              let size = size_with_tail b.fragment_size h.of_fragment_no (length p - type3_size) in
              if-Keeps seen _ _ (answer-Keeps duplicate_packet_received v) (
                filled_stored r i v used (resize b1 size) (b.fragment_size * k) (drop type3_size p)
                  (resize-Holds b1 _ i size (record {
                    in_use = holds.in_use;
                    order_is = refl;
                    place_is = holds.place_is;
                    frame = holds.frame;
                    has_frame = holds.has_frame;
                  })))))))

-- Of type 2.
module _ {w : Outside} (r : ElasticFrameProtocolReceiver) (p : List ℕ) (i : ℕ) (v : Stands w r)
    (used : (r.bucket_list i).active ≡ true) where
  take_type2-Keeps :
      (h : ElasticFrameType2) (b : Bucket)
      → Holds b (r.bucket_list i).delivery_order i
      → Keeps w (take_type2 r p h i b)
  unfolding take_type2
  take_type2-Keeps h b holds =
      let noted : Stands w (note_stream r h) = record {
        kept = v.kept;
        bits_are = v.bits_are;
        outside_is = v.outside_is;
      } in
      let size = b.fragment_size * h.of_fragment_no + h.size_of_data in
      bind-Keeps (stream_at r h.stream_id) _ (λ stream.
        if-Keeps (h.size_of_data == 0) _ _
          (answer-Keeps no_error (filled_set (note_stream r h) i noted used b holds))
          (filled_stored (note_stream r h) i noted used (resize b size)
            (h.type1_packet_size * h.of_fragment_no) (payload2 p h)
            (resize-Holds b _ i size holds)))

  pub fill_type2-Keeps : (h : ElasticFrameType2) → Keeps w (fill_type2 r p h i (r.bucket_list i))
  unfolding fill_type2 filled2
  fill_type2-Keeps h =
      let b = r.bucket_list i in
      let holds = in_use r i v used in
      let k = h.of_fragment_no in
      if-Keeps (not (h.super_frame_no == b.saved_super_frame_no)) _ _
        (answer-Keeps buffer_out_of_resources v)
        (if-Keeps (ltb b.of_fragment_no k || not (h.of_fragment_no == b.of_fragment_no)) _ _
          (answer-Keeps buffer_out_of_bounds (filled_dropped r i v used))
          (bind-Keeps (received_at b.have_received_fragment k) _ (λ seen.
            bind-Keeps (mark_received b.have_received_fragment k) _ (λ received.
              if-Keeps seen _ _ (answer-Keeps duplicate_packet_received v) (
                take_type2-Keeps h (filled2 h b received) (record {
                  in_use = holds.in_use;
                  order_is = refl;
                  place_is = holds.place_is;
                  frame = holds.frame;
                  has_frame = holds.has_frame;
                }))))))
