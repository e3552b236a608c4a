-- ===== src/Transfer/OpeningFull.antt =====
-- A full fragment claims a bucket.
use efp.Prelude.{
  ℕ, ◌+◌, ◌*◌, ◌-◌, ◌≤◌, ◌<◌, ◌≡◌, refl, arith, false, some, ltb, ◌++◌, length, inl, inr,
}
use efp.Wire.{encode_type1}
use efp.Wire.FrameType.{type1-Splits}
use native.Mathlib.Nat.{mul_comm}
use efp.Receiver.{ElasticFrameProtocolReceiver, Bucket, none_received, mark_received, stream_at}
use efp.Frames.{SuperFrame, Env}
use efp.Receiver.Unpack.Type1.{open_type1, opened1}
use efp.Transfer.{Frame, IsFrame, last_no, part, header1}
use efp.Transfer.Memory.{Writes, write-Writes, length-part}
use efp.Transfer.Headers.{last_cases, content-le, full_inside}
use efp.Transfer.Collected.{Collected}
use efp.Wire.RoundTrip.{drop-encode_type1}
use efp.Transfer.Opening.{
  Grants, Opens, first, fresh_memory, granted_frame, new_super_frame_lem, has_memory, store-Opens,
  Collected-first, claimed, early_labels,
}

module _ (g : Frame) (v : IsFrame g) where
  -- Any packet of the frame sees enough memory for one more fragment than the last number says.
  room_for_all : length g.content ≤ g.fragment_size * (last_no g + 1)
  room_for_all = elim (last_cases g v) [
    | inl c ↦ omega (arith, content-le g v, mul_comm g.fragment_size (last_no g), c.place)
    | inr c ↦ omega (arith, content-le g v, mul_comm g.fragment_size (last_no g), c.place)
  ]

  -- Without a tail the full fragments are the frame.
  even_size : g.tail ≡ 0 → g.fragment_size * last_no g ≡ length g.content
  even_size e = elim (last_cases g v) [
    | inl c ↦ absurd (omega (arith, v.tail_needed c.needed))
    | inr c ↦ omega (arith, mul_comm g.fragment_size (last_no g), c.place, v.total)
  ]

module _ (g : Frame) (v : IsFrame g) (env : Env) (grants : Grants env)
    (r : ElasticFrameProtocolReceiver) (source at : ℕ) (b : Bucket) (order : ℕ) where
  pub stream_there : stream_at r g.stream_id ≡ some (r.streams g.stream_id)
  unfolding stream_at
  stream_there = ground (arith, v.stream_fits)

  pub marked : (i : ℕ) → i ≤ last_no g → mark_received none_received i ≡ some (first i)
  unfolding mark_received
  marked i h = ground (arith, v.count_fits)

  abbrev frame1 : SuperFrame
  frame1 = record (granted_frame env (g.fragment_size * (last_no g + 1))) {
    frame_size = g.fragment_size * last_no g;
  }

  abbrev bucket1 : ℕ → Bucket
  bucket1 i =
      claimed env r g source order b i (header1 g i).frame_type
        (early_labels g (r.streams g.stream_id)) frame1

  opened1_lem :
      (i : ℕ)
      → i < g.whole
      → opened1 env r
          (header1 g i)
          (length (encode_type1 (header1 g i) ++ part g (i * g.fragment_size) g.fragment_size))
          source
          order
          b
          (r.streams g.stream_id)
          (first i)
        ≡ bucket1 i
  unfolding opened1 encode_type1 header1
  opened1_lem i h =
      let len : length (encode_type1 (header1 g i) ++ part g (i * g.fragment_size) g.fragment_size)
            - 8
          ≡ g.fragment_size =
        omega (
          arith,
          length-part g.content (i * g.fragment_size) g.fragment_size (full_inside g v i h),
        ) in
      rw (len, new_super_frame_lem env (g.fragment_size * (last_no g + 1)) grants)

  bucket1-Collected :
      (i : ℕ) (h : i < g.whole)
      (w : Writes
        (fresh_memory (g.fragment_size * (last_no g + 1)))
        g.content
        (i * g.fragment_size)
        g.fragment_size)
      → Collected g
          (record (bucket1 i) { bucket_data = some (record frame1 { frame_data = some w.after }) })
  unfolding header1 fresh_memory
  bucket1-Collected i h w =
      Collected-first g v i
        (record (bucket1 i) { bucket_data = some (record frame1 { frame_data = some w.after }) })
        (record frame1 { frame_data = some w.after }) w.after (ground arith) refl refl refl refl
        refl refl (type1-Splits g.flags v.flags_fit).high refl refl refl
        (omega (arith, room_for_all g v, w.same_capacity))
        (λ x region. w.written x region.above region.below) (λ e. absurd (omega arith))
        (even_size g v) (λ e. absurd (ground arith))

  pub open_type1-Opens :
      (i : ℕ)
      → i < g.whole
      → Opens g r at order i (
          open_type1 env r
            (encode_type1 (header1 g i) ++ part g (i * g.fragment_size) g.fragment_size)
            source
            (header1 g i)
            at
            b
            order)
  unfolding open_type1 header1 fresh_memory
  open_type1-Opens i h =
      let small : i ≤ last_no g = ground arith in
      let inside : i * g.fragment_size + g.fragment_size ≤ length g.content = full_inside g v i h in
      let size : ℕ = g.fragment_size * (last_no g + 1) in
      let w : Writes (fresh_memory size) g.content (i * g.fragment_size) g.fragment_size =
        write-Writes (fresh_memory size) g.content (i * g.fragment_size) g.fragment_size inside
          (omega (arith, inside, room_for_all g v)) in
      let not_last : ltb (last_no g) i ≡ false = ground arith in
      rw
        (
          stream_there,
          marked i small,
          opened1_lem i h,
          has_memory (bucket1 i) frame1 (fresh_memory size) refl refl,
          not_last,
          mul_comm g.fragment_size i,
          drop-encode_type1 (header1 g i) (part g (i * g.fragment_size) g.fragment_size),
        )
        (store-Opens g r at order i r.streams (bucket1 i) frame1 (fresh_memory size)
          (i * g.fragment_size) g.fragment_size refl refl w refl refl (bucket1-Collected i h w))
