-- ===== src/Transfer/FillingLast.antt =====
-- The second half of unpackType2, for the last packet of a frame.
use efp.Prelude.{
  ℕ, ◌+◌, ◌*◌, ◌^◌, ◌-◌, ◌≤◌, ◌<◌, ◌≡◌, refl, ap, ◌∙◌, arith, bit_and, u64_max, Bool, true, false,
  some, ◌++◌, length, if◌then◌else◌, update, ◌==◌, ==_iff, Bool-cases, inl, inr, sub_u64, u32_max,
  take-length,
}
use efp.Message.{no_error}
use efp.Wire.{encode_type2}
use efp.Wire.FrameType.{type2-Splits}
use native.Mathlib.Nat.{mul_comm}
use efp.Receiver.{ElasticFrameProtocolReceiver, Bucket, set_bucket, stream_at}
use efp.Frames.{SuperFrame}
use efp.Receiver.Unpack.Type2.{fill_type2, take_type2, filled2, note_stream, payload2, dts_of}
use efp.Transfer.{Frame, IsFrame, InRegion, last_no, last_start, last_size, part, header2}
use efp.Transfer.Count.{received_before}
use efp.Transfer.Memory.{Writes, write-Writes, length-part}
use efp.Transfer.Headers.{last_data, last_cases, HoldsTail}
use efp.Transfer.Collected.{Collected, Stamped}
use efp.Transfer.Adding.{Labels, store_payload_lem, added, Collected-added}
use efp.Transfer.Filling.{Fills, same_frame, in_bounds, seen, marked, resize_lem}

-- The labels that the last packet sets.
abbrev pub last_labels : Frame → Labels
last_labels g = record {
  pts = g.pts;
  dts = dts_of (header2 g);
  code = g.code;
  data_content = g.data_content;
  flags = bit_and (header2 g).frame_type 0xf0;
  stream = g.stream_id;
}

-- The DTS comes back from its distance below the PTS.
pub dts_back :
    (pts dts : ℕ)
    → pts < 2 ^ 64
    → dts < 2 ^ 64
    → sub_u64 pts dts < 2 ^ 32 - 1
    → (if sub_u64 pts dts == u32_max then u64_max else sub_u64 pts (sub_u64 pts dts)) ≡ dts
dts_back pts dts hp hd near = ground arith

-- The data of the last packet, as unpackType2 copies it.
pub payload2_lem :
    (g : Frame)
    → IsFrame g
    → payload2
        (encode_type2 g.padding (header2 g) ++ part g (last_start g) (last_size g))
        (header2 g)
      ≡ part g (last_start g) (last_size g)
unfolding encode_type2 header2
payload2_lem g v = take-length (last_size g) (part g (last_start g) (last_size g)) (
    omega (
      arith,
      length-part g.content (last_start g) (last_size g) (omega (arith, (last_data g v).0)),
    ))

module _ (g : Frame) (v : IsFrame g) (r : ElasticFrameProtocolReceiver) (at : ℕ) (b : Bucket)
    (k : Collected g b) (new : b.have_received_fragment (last_no g) ≡ false) where
  abbrev received : ℕ → Bool
  received = update b.have_received_fragment (last_no g) true

  stream_there : stream_at r g.stream_id ≡ some (r.streams g.stream_id)
  unfolding stream_at
  stream_there = ground (arith, v.stream_fits)

  last_Stamped : (frame : SuperFrame) → Stamped g (added b (last_labels g) (last_no g) frame)
  unfolding header2
  last_Stamped frame = record {
    pts_is = refl;
    dts_is = dts_back g.pts g.dts (omega (arith, v.pts_fits)) v.dts_fits v.dts_near;
    code_is = refl;
    content_is = refl;
  }

  -- A last packet without data leaves the frame and its size alone.
  empty_region : last_size g ≡ 0 → (x : ℕ) → InRegion g (last_no g) x → ⊥
  empty_region none_left x region = elim (last_cases g v) [
    | inl c ↦ omega (arith, c.place, v.total, v.tail_fits)
    | inr c ↦ omega (arith, c.place, c.rest, v.total)
  ]

  empty_sized : last_size g ≡ 0 → received g.whole ≡ true → k.frame.frame_size ≡ length g.content
  empty_sized none_left e = elim (last_cases g v) [
    | inl c ↦
        k.sized
          (received_before b.have_received_fragment (last_no g) g.whole (omega (arith, c.number)) e)
    | inr c ↦ k.sized_even (omega (arith, c.rest))
  ]

  abbrev same : SuperFrame
  same = record k.frame { frame_data = some k.memory }

  same_is : b.bucket_data ≡ some same
  same_is = k.data_is ∙ ap (λ d. some (record (k.frame) { frame_data = d })) k.memory_is

  empty_Fills :
      last_size g ≡ 0
      → Fills g r at b (last_no g) (
          take_type2 r
            (encode_type2 g.padding (header2 g) ++ part g (last_start g) (last_size g))
            (header2 g)
            at
            (filled2 (header2 g) b received))
  unfolding take_type2 filled2 header2
  empty_Fills none_left = record {
    streams = (note_stream r (header2 g)).streams;
    after = added b (last_labels g) (last_no g) same;
    result =
        rw (stream_there, none_left)
          (ap
            (λ d. some (
              no_error,
              set_bucket (note_stream r (header2 g)) at
                  (record (filled2 (header2 g) b received) { bucket_data = d }),
            ))
            same_is);
    collected =
        Collected-added g v k (last_labels g) (last_no g) (omega arith) new k.memory
          k.frame.frame_size refl (λ x e. e) (λ x region. absurd (empty_region none_left x region))
          (empty_sized none_left) k.sized_even (type2-Splits g.flags v.flags_fit).high refl
          (λ e. last_Stamped same);
    received_is = refl;
    order_is = refl;
  }

  -- With data it is the tail of the frame, and the size of the frame is known.
  tail_Fills :
      HoldsTail g
      → (last_size g == 0) ≡ false
      → Fills g r at b (last_no g) (
          take_type2 r
            (encode_type2 g.padding (header2 g) ++ part g (last_start g) (last_size g))
            (header2 g)
            at
            (filled2 (header2 g) b received))
  unfolding take_type2 filled2 header2
  tail_Fills c some_left =
      let ends : last_start g + last_size g ≡ length g.content = (last_data g v).0 in
      let w : Writes k.memory g.content (last_start g) (last_size g) =
        write-Writes k.memory g.content (last_start g) (last_size g) (omega arith)
          (omega (arith, k.room)) in
      let frame : SuperFrame = record k.frame { frame_size = length g.content } in
      let b1 : Bucket = filled2 (header2 g) b received in
      let size : b.fragment_size * last_no g + last_size g ≡ length g.content = omega (
        arith,
        ap (λ (t : ℕ). t * last_no g) k.fragment_size_is,
        mul_comm g.fragment_size (last_no g),
        c.place,
        c.start,
      ) in
      let place : g.fragment_size * last_no g ≡ last_start g =
        omega (arith, mul_comm g.fragment_size (last_no g), c.place, c.start) in
      record {
        streams = (note_stream r (header2 g)).streams;
        after = added b (last_labels g) (last_no g) (record frame { frame_data = some w.after });
        result =
            rw
              (
                stream_there,
                some_left,
                size,
                place,
                resize_lem b1 (length g.content) k.frame k.data_is,
              )
              (rw (payload2_lem g v) (
                store_payload_lem (note_stream r (header2 g)) at
                  (record b1 { bucket_data = some frame }) g (last_start g) (last_size g) frame
                  k.memory refl k.memory_is w));
        collected =
            Collected-added g v k (last_labels g) (last_no g) (omega arith) new w.after
              (length g.content) w.same_capacity w.kept
              (λ x region.
                w.written x (omega (arith, region.above, c.place, c.start))
                  (omega (arith, region.inside)))
              (λ e. refl) (λ e. refl) (type2-Splits g.flags v.flags_fit).high refl
              (λ e. last_Stamped (record frame { frame_data = some w.after }));
        received_is = refl;
        order_is = refl;
      }

  take_type2-Fills : Fills g r at b (last_no g) (
      take_type2 r
        (encode_type2 g.padding (header2 g) ++ part g (last_start g) (last_size g))
        (header2 g)
        at
        (filled2 (header2 g) b received))
  take_type2-Fills = elim (Bool-cases (last_size g == 0)) [
    | inl none_left ↦ empty_Fills ((==_iff _ _).0 none_left)
    | inr some_left ↦ elim (last_cases g v) [
      | inl c ↦ absurd (ground (arith, c.empty))
      | inr c ↦ tail_Fills c some_left
    ]
  ]

  pub fill_type2-Fills : Fills g r at b (last_no g) (
      fill_type2 r
        (encode_type2 g.padding (header2 g) ++ part g (last_start g) (last_size g))
        (header2 g)
        at
        b)
  unfolding fill_type2 header2
  fill_type2-Fills =
      let small : last_no g ≤ last_no g = omega arith in
      rw
        (
          same_frame g v r at b k,
          in_bounds g v r at b k (last_no g) small,
          seen g v r at b k (last_no g) small,
          marked g v r at b k (last_no g) small,
          new,
        )
        take_type2-Fills
