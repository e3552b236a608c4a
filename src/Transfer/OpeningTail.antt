-- ===== src/Transfer/OpeningTail.antt =====
-- The first half of unpackType3, for a frame whose type 3 packet comes first.
use efp.Prelude.{ℕ, ◌+◌, ◌*◌, ◌-◌, ◌≡◌, refl, arith, true, some, ◌++◌, length}
use efp.Wire.{encode_type3}
use efp.Wire.FrameType.{type3-Splits}
use efp.Wire.RoundTrip.{drop-encode_type3}
use native.Mathlib.Nat.{mul_comm}
use efp.Receiver.{ElasticFrameProtocolReceiver, Bucket}
use efp.Frames.{SuperFrame, Env}
use efp.Receiver.Unpack.Type3.{open_type3, opened3, this_fragment_no, size_with_tail}
use efp.Transfer.{Frame, IsFrame, last_no, part, header3}
use efp.Transfer.Memory.{Writes, write-Writes, length-part}
use efp.Transfer.Headers.{content_small}
use efp.Transfer.Collected.{Collected}
use efp.Transfer.Filling.{size_with_tail_lem}
use efp.Transfer.Opening.{
  Grants, Opens, first, fresh_memory, granted_frame, new_super_frame_lem, has_memory, store-Opens,
  Collected-first, claimed, early_labels,
}
use efp.Transfer.OpeningFull.{stream_there, marked}

module _ (g : Frame) (v : IsFrame g) (env : Env) (grants : Grants env)
    (r : ElasticFrameProtocolReceiver) (source at : ℕ) (b : Bucket) (order : ℕ)
    (needed : g.has_type3 ≡ true) where
  abbrev frame3 : SuperFrame
  frame3 = granted_frame env (length g.content)

  abbrev bucket3 : Bucket
  bucket3 =
      claimed env r g source order b g.whole (header3 g).frame_type
        (early_labels g (r.streams g.stream_id)) frame3

  number3 : this_fragment_no (header3 g) ≡ g.whole
  unfolding header3
  number3 = ground (arith, v.count_fits)

  size3 :
      size_with_tail g.fragment_size
        (last_no g)
        (length (encode_type3 (header3 g) ++ part g (g.whole * g.fragment_size) g.tail) - 8)
      ≡ length g.content
  unfolding encode_type3
  size3 =
      let last : last_no g ≡ g.whole + 1 = ground arith in
      let carried : length (encode_type3 (header3 g) ++ part g (g.whole * g.fragment_size) g.tail)
            - 8
          ≡ g.tail =
        omega (
          arith,
          length-part g.content (g.whole * g.fragment_size) g.tail (omega (arith, v.total)),
        ) in
      rw (last, carried)
        (size_with_tail_lem g.fragment_size g.whole g.tail (length g.content) v.total
          (content_small g v) (ground (arith, v.count_fits)))

  opened3_lem :
      opened3 env r
        (header3 g)
        (length (encode_type3 (header3 g) ++ part g (g.whole * g.fragment_size) g.tail))
        source
        order
        b
        (r.streams g.stream_id)
        (first g.whole)
      ≡ bucket3
  unfolding opened3 header3
  opened3_lem = rw (size3, new_super_frame_lem env (length g.content) grants)

  bucket3-Collected :
      (w : Writes (fresh_memory (length g.content)) g.content (g.whole * g.fragment_size) g.tail)
      → Collected g
          (record bucket3 { bucket_data = some (record frame3 { frame_data = some w.after }) })
  unfolding header3 fresh_memory
  bucket3-Collected w =
      Collected-first g v g.whole
        (record bucket3 { bucket_data = some (record frame3 { frame_data = some w.after }) })
        (record frame3 { frame_data = some w.after }) w.after (ground arith) refl refl refl refl
        refl refl (type3-Splits g.flags v.flags_fit).high refl refl refl
        (omega (arith, w.same_capacity))
        (λ x region. w.written x region.above (omega (arith, v.total, region.inside))) (λ e. refl)
        (λ e. refl) (λ e. absurd (ground arith))

  pub open_type3-Opens : Opens g r at order g.whole (
      open_type3 env r
        (encode_type3 (header3 g) ++ part g (g.whole * g.fragment_size) g.tail)
        source
        (header3 g)
        at
        b
        order)
  unfolding open_type3 header3 fresh_memory
  open_type3-Opens =
      let w : Writes (fresh_memory (length g.content)) g.content (g.whole * g.fragment_size)
          g.tail =
        write-Writes (fresh_memory (length g.content)) g.content (g.whole * g.fragment_size) g.tail
          (omega (arith, v.total)) (omega (arith, v.total)) in
      rw
        (
          stream_there g v env grants r source at b order,
          number3,
          marked g v env grants r source at b order g.whole (ground arith),
          opened3_lem,
          has_memory bucket3 frame3 (fresh_memory (length g.content)) refl refl,
          mul_comm g.fragment_size g.whole,
          drop-encode_type3 (header3 g) (part g (g.whole * g.fragment_size) g.tail),
        )
        (store-Opens g r at order g.whole r.streams bucket3 frame3 (fresh_memory (length g.content))
          (g.whole * g.fragment_size) g.tail refl refl w refl refl (bucket3-Collected w))
