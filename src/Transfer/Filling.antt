-- ===== src/Transfer/Filling.antt =====
-- The second half of each handler: a packet of the frame meets the bucket that collects it.
use efp.Prelude.{
  ℕ, ◌+◌, ◌*◌, ◌%◌, ◌^◌, ◌-◌, ◌≤◌, ◌<◌, ◌≡◌, refl, ap, ◌∙◌, arith, true, false, Option, some, ◌++◌,
  length, update, ◌==◌, not, ltb, ◌||◌,
}
use efp.Message.{ElasticFrameMessages, no_error}
use efp.Wire.{encode_type1, encode_type3}
use efp.Receiver.{
  ElasticFrameProtocolReceiver, Bucket, Stream, set_bucket, received_at, mark_received, resize,
}
use efp.Frames.{SuperFrame}
use native.Mathlib.Nat.{mul_comm}
use efp.Receiver.Unpack.Type1.{fill_type1}
use efp.Transfer.{Frame, IsFrame, last_no, part, header1, header3}
use efp.Transfer.Memory.{Writes, write-Writes, length-part}
use efp.Transfer.Headers.{full_inside, content_small}
use efp.Transfer.Collected.{Collected}
use efp.Transfer.Adding.{store_payload_lem, labels, added, restamp, Collected-added}
use efp.Transfer.Count.{received_before}
use efp.Receiver.Unpack.Type3.{fill_type3, this_fragment_no, size_with_tail}

-- What a handler does with fragment `i` of the frame, when the bucket does not have it yet.
pub record Fills (g : Frame) (r : ElasticFrameProtocolReceiver) (at : ℕ) (b : Bucket) (i : ℕ)
    (res : Option (ElasticFrameMessages × ElasticFrameProtocolReceiver)) : Type 0 where
  pub streams : ℕ → Stream
  pub after : Bucket
  pub result : res ≡ some (no_error, set_bucket (record r { streams = streams }) at after)
  pub collected : Collected g after
  pub received_is : after.have_received_fragment ≡ update b.have_received_fragment i true
  pub order_is : after.delivery_order ≡ b.delivery_order

pub size_with_tail_lem :
    (size w tail total : ℕ)
    → w * size + tail ≡ total
    → total < 2 ^ 33
    → w < 65536
    → size_with_tail size (w + 1) tail ≡ total
size_with_tail_lem size w tail total e h small =
    let one : (w + 1 + (2 ^ 64 - 1)) % 2 ^ 64 ≡ w = omega arith in
    omega (arith, mul_comm w size, ap (λ (t : ℕ). size * t) one)

pub resize_lem :
    (b : Bucket) (size : ℕ) (frame : SuperFrame)
    → b.bucket_data ≡ some frame
    → resize b size ≡ record b { bucket_data = some (record frame { frame_size = size }) }
unfolding resize
resize_lem b size frame e = rw e

module _ (g : Frame) (v : IsFrame g) (r : ElasticFrameProtocolReceiver) (at : ℕ) (b : Bucket)
    (k : Collected g b) where
  -- A packet of the frame passes the tests on its numbers.
  pub same_frame : not (g.number == b.saved_super_frame_no) ≡ false
  same_frame = ground (arith, k.number_is)

  pub in_bounds :
      (i : ℕ)
      → i ≤ last_no g
      → ltb b.of_fragment_no i || not (last_no g == b.of_fragment_no) ≡ false
  in_bounds i h = ground (arith, k.last_is)

  pub seen :
      (i : ℕ)
      → i ≤ last_no g
      → received_at b.have_received_fragment i ≡ some (b.have_received_fragment i)
  unfolding received_at
  seen i h = ground (arith, v.count_fits)

  pub marked :
      (i : ℕ)
      → i ≤ last_no g
      → mark_received b.have_received_fragment i ≡ some (update b.have_received_fragment i true)
  unfolding mark_received
  marked i h = ground (arith, v.count_fits)

  pub fill_type1-Fills :
      (i : ℕ)
      → i < g.whole
      → b.have_received_fragment i ≡ false
      → Fills g r at b i (
          fill_type1 r
            (encode_type1 (header1 g i) ++ part g (i * g.fragment_size) g.fragment_size)
            (header1 g i)
            at
            b)
  unfolding fill_type1 header1 encode_type1
  fill_type1-Fills i h new =
      let small : i ≤ last_no g = ground arith in
      let w : Writes k.memory g.content (i * g.fragment_size) g.fragment_size =
        write-Writes k.memory g.content (i * g.fragment_size) g.fragment_size (full_inside g v i h)
          (omega (arith, full_inside g v i h, k.room)) in
      let place : b.fragment_size * i ≡ i * g.fragment_size =
        mul_comm b.fragment_size i ∙ ap (λ (t : ℕ). i * t) k.fragment_size_is in
      let b1 : Bucket = record b {
        have_received_fragment = update b.have_received_fragment i true;
        fragment_counter = (b.fragment_counter + 1) % 65536;
      } in
      let frame : SuperFrame = record k.frame { frame_data = some w.after } in
      record {
        streams = r.streams;
        after = added b (labels b) i frame;
        result =
            rw (same_frame, in_bounds i small, seen i small, marked i small, new, place)
              (store_payload_lem r at b1 g (i * g.fragment_size) g.fragment_size k.frame k.memory
                k.data_is k.memory_is w);
        collected =
            Collected-added g v k (labels b) i small new w.after k.frame.frame_size w.same_capacity
              w.kept (λ x region. w.written x region.above region.below)
              (λ e. k.sized (received_before b.have_received_fragment i g.whole (omega arith) e))
              k.sized_even k.flags_is k.stream_is
              (λ e.
                restamp
                  (k.stamped
                    (received_before b.have_received_fragment i (last_no g) (ground arith) e))
                  i frame);
        received_is = refl;
        order_is = refl;
      }

  -- The number that a type 3 packet goes by, and the frame size that it sets.
  pub tail_number : g.has_type3 ≡ true → this_fragment_no (header3 g) ≡ g.whole
  unfolding header3
  tail_number e = ground (arith, v.count_fits)

  tail_size :
      g.has_type3 ≡ true
      → size_with_tail b.fragment_size
          (last_no g)
          (length (encode_type3 (header3 g) ++ part g (g.whole * g.fragment_size) g.tail) - 8)
        ≡ length g.content
  unfolding encode_type3
  tail_size needed =
      let last : last_no g ≡ g.whole + 1 = ground arith in
      let carried : length (encode_type3 (header3 g) ++ part g (g.whole * g.fragment_size) g.tail)
            - 8
          ≡ g.tail =
        omega (
          arith,
          length-part g.content (g.whole * g.fragment_size) g.tail (omega (arith, v.total)),
        ) in
      rw (last, carried, k.fragment_size_is)
        (size_with_tail_lem g.fragment_size g.whole g.tail (length g.content) v.total
          (content_small g v) (ground (arith, v.count_fits)))

  pub fill_type3-Fills :
      g.has_type3 ≡ true
      → b.have_received_fragment g.whole ≡ false
      → Fills g r at b g.whole (
          fill_type3 r
            (encode_type3 (header3 g) ++ part g (g.whole * g.fragment_size) g.tail)
            (header3 g)
            at
            b)
  unfolding fill_type3 header3 encode_type3
  fill_type3-Fills needed new =
      let small : g.whole ≤ last_no g = ground arith in
      let w : Writes k.memory g.content (g.whole * g.fragment_size) g.tail =
        write-Writes k.memory g.content (g.whole * g.fragment_size) g.tail (omega (arith, v.total))
          (omega (arith, v.total, k.room)) in
      let place : b.fragment_size * g.whole ≡ g.whole * g.fragment_size =
        mul_comm b.fragment_size g.whole ∙ ap (λ (t : ℕ). g.whole * t) k.fragment_size_is in
      let frame : SuperFrame = record k.frame { frame_size = length g.content } in
      let b1 : Bucket = record b {
        have_received_fragment = update b.have_received_fragment g.whole true;
        fragment_counter = (b.fragment_counter + 1) % 65536;
        bucket_data = some frame;
      } in
      record {
        streams = r.streams;
        after = added b (labels b) g.whole (record frame { frame_data = some w.after });
        result =
            rw
              (
                tail_number needed,
                same_frame,
                in_bounds g.whole small,
                seen g.whole small,
                marked g.whole small,
                new,
                place,
              )
              (rw
                (
                  tail_size needed,
                  resize_lem
                      (record b {
                        have_received_fragment = update b.have_received_fragment g.whole true;
                        fragment_counter = (b.fragment_counter + 1) % 65536;
                      })
                      (length g.content) k.frame k.data_is,
                )
                (store_payload_lem r at b1 g (g.whole * g.fragment_size) g.tail frame k.memory refl
                  k.memory_is w));
        collected =
            Collected-added g v k (labels b) g.whole small new w.after (length g.content)
              w.same_capacity w.kept
              (λ x region. w.written x region.above (omega (arith, v.total, region.inside)))
              (λ e. refl) (λ e. refl) k.flags_is k.stream_is
              (λ e.
                restamp
                  (k.stamped
                    (received_before b.have_received_fragment g.whole (last_no g) (ground arith) e))
                  g.whole (record frame { frame_data = some w.after }));
        received_is = refl;
        order_is = refl;
      }
