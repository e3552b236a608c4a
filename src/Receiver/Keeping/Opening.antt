-- ===== src/Receiver/Keeping/Opening.antt =====
-- The first fragment of a frame and the invariant of the receiver.
use efp.Prelude.{ℕ, ◌*◌, ◌%◌, ◌<◌, ◌≡◌, refl, ap, ◌∙◌, arith, false, List, ◌==◌, drop, length, ltb}
use efp.Message.{too_old_fragment}
use efp.Wire.{ElasticFrameType1, ElasticFrameType2, ElasticFrameType3, type1_size, type3_size}
use efp.Receiver.{
  ElasticFrameProtocolReceiver, Bucket, super_frame_recalculator, stream_at, mark_received,
  none_received,
}
use efp.Frames.{Env}
use efp.Receiver.Invariant.{Outside, Stands, recalculator-Stands}
use efp.Receiver.Unpack.Type1.{opened1, open_type1, fresh_type1}
use efp.Receiver.Unpack.Type2.{payload2, note_stream, opened2, open_type2, fresh_type2}
use efp.Receiver.Unpack.Type3.{this_fragment_no, opened3, open_type3, fresh_type3}
use efp.Receiver.Keeping.{Keeps, answer-Keeps, if-Keeps, bind-Keeps, opening}

-- A number that ends in a frame's own number stands at the frame's place.
place_of : (order n : ℕ) → order % 65536 ≡ n → order % 8192 ≡ n % 8192
place_of order n e = omega (arith, e)

module _ {w : Outside} (env : Env) (r : ElasticFrameProtocolReceiver) (p : List ℕ) (source i : ℕ)
    (b : Bucket) (order : ℕ) (v : Stands w r) (free : (r.bucket_list i).active ≡ false)
    (place : order % 8192 ≡ i) where
  open_type1-Keeps : (h : ElasticFrameType1) → Keeps w (open_type1 env r p source h i b order)
  unfolding open_type1 opened1
  open_type1-Keeps h = bind-Keeps (stream_at r h.stream) _ (λ stream.
      bind-Keeps (mark_received none_received h.fragment_no) _ (λ received.
        let b1 = opened1 env r h (length p) source order b stream received in
        opening r i v free b1 (ltb b1.of_fragment_no h.fragment_no)
          (b1.fragment_size * h.fragment_no) (drop type1_size p)
          (record {
            in_use = refl;
            order_is = refl;
            place_is = place;
            frame = _;
            has_frame = refl;
          })))

  open_type2-Keeps : (h : ElasticFrameType2) → Keeps w (open_type2 env r p source h i b order)
  unfolding open_type2 opened2
  open_type2-Keeps h = bind-Keeps (stream_at r h.stream_id) _ (λ stream.
      bind-Keeps (mark_received none_received h.of_fragment_no) _ (λ received.
        let b1 = opened2 env r h source order b received in
        opening (note_stream r h) i
          (record { kept = v.kept; bits_are = v.bits_are; outside_is = v.outside_is }) free b1 false
          (h.type1_packet_size * h.of_fragment_no) (payload2 p h)
          (record {
            in_use = refl;
            order_is = refl;
            place_is = place;
            frame = _;
            has_frame = refl;
          })))

  open_type3-Keeps : (h : ElasticFrameType3) → Keeps w (open_type3 env r p source h i b order)
  unfolding open_type3 opened3
  open_type3-Keeps h = bind-Keeps (stream_at r h.stream_id) _ (λ stream.
      bind-Keeps (mark_received none_received (this_fragment_no h)) _ (λ received.
        let b1 = opened3 env r h (length p) source order b stream received in
        opening r i v free b1 false (b1.fragment_size * this_fragment_no h) (drop type3_size p)
          (record {
            in_use = refl;
            order_is = refl;
            place_is = place;
            frame = _;
            has_frame = refl;
          })))

-- With the test for the fragment's age in front.
module _ {w : Outside} (env : Env) (r : ElasticFrameProtocolReceiver) (p : List ℕ) (source : ℕ)
    (b : Bucket) (v : Stands w r) where
  numbered : (n : ℕ) → n < 65536 → (super_frame_recalculator r n).0 % 8192 ≡ n % 8192
  numbered n fits = place_of (super_frame_recalculator r n).0 n (recalculator-Stands r n v fits).0

  counted : (n : ℕ) → n < 65536 → Stands w (super_frame_recalculator r n).1
  counted n fits = (recalculator-Stands r n v fits).1

  still_free :
      (n i : ℕ)
      → n < 65536
      → (r.bucket_list i).active ≡ false
      → ((super_frame_recalculator r n).1.bucket_list i).active ≡ false
  still_free n i fits free =
      ap (λ (f : ℕ → Bucket). (f i).active) (recalculator-Stands r n v fits).2 ∙ free

  pub fresh_type1-Keeps :
      (h : ElasticFrameType1)
      → h.super_frame_no < 65536
      → (r.bucket_list (h.super_frame_no % 8192)).active ≡ false
      → Keeps w (fresh_type1 env r p source h (h.super_frame_no % 8192) b)
  unfolding fresh_type1
  fresh_type1-Keeps h fits free =
      let n = h.super_frame_no in
      let x = super_frame_recalculator r n in
      if-Keeps (x.0 == b.delivery_order) _ _ (answer-Keeps too_old_fragment (counted n fits)) (
        open_type1-Keeps env x.1 p source (n % 8192) b x.0 (counted n fits)
          (still_free n (n % 8192) fits free) (numbered n fits) h)

  pub fresh_type2-Keeps :
      (h : ElasticFrameType2)
      → h.super_frame_no < 65536
      → (r.bucket_list (h.super_frame_no % 8192)).active ≡ false
      → Keeps w (fresh_type2 env r p source h (h.super_frame_no % 8192) b)
  unfolding fresh_type2
  fresh_type2-Keeps h fits free =
      let n = h.super_frame_no in
      let x = super_frame_recalculator r n in
      if-Keeps (x.0 == b.delivery_order) _ _ (answer-Keeps too_old_fragment (counted n fits)) (
        open_type2-Keeps env x.1 p source (n % 8192) b x.0 (counted n fits)
          (still_free n (n % 8192) fits free) (numbered n fits) h)

  pub fresh_type3-Keeps :
      (h : ElasticFrameType3)
      → h.super_frame_no < 65536
      → (r.bucket_list (h.super_frame_no % 8192)).active ≡ false
      → Keeps w (fresh_type3 env r p source h (h.super_frame_no % 8192) b)
  unfolding fresh_type3
  fresh_type3-Keeps h fits free =
      let n = h.super_frame_no in
      let x = super_frame_recalculator r n in
      if-Keeps (x.0 == b.delivery_order) _ _ (answer-Keeps too_old_fragment (counted n fits)) (
        open_type3-Keeps env x.1 p source (n % 8192) b x.0 (counted n fits)
          (still_free n (n % 8192) fits free) (numbered n fits) h)
