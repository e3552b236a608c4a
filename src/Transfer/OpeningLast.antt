-- ===== src/Transfer/OpeningLast.antt =====
-- The first half of unpackType2, for a frame whose last packet comes first, or that has no other.
use efp.Prelude.{
  ℕ, ◌+◌, ◌*◌, ◌≤◌, ◌≡◌, refl, ap, sym, arith, some, ◌++◌, length, get_elem?, inl, inr, subst,
}
use efp.Wire.{encode_type2}
use efp.Wire.FrameType.{type2-Splits}
use native.Mathlib.Nat.{mul_comm}
use efp.Receiver.{ElasticFrameProtocolReceiver, Bucket}
use efp.Frames.{SuperFrame, Env}
use efp.Receiver.Unpack.Type2.{open_type2, opened2, note_stream}
use efp.Transfer.{Frame, IsFrame, InRegion, last_no, last_start, last_size, part, header2}
use efp.Transfer.Memory.{Writes, write-Writes, write-Writes_empty}
use efp.Transfer.Headers.{last_cases, HoldsTail}
use efp.Transfer.Collected.{Collected, Stamped}
use efp.Transfer.FillingLast.{last_labels, dts_back, payload2_lem}
use efp.Transfer.Opening.{
  Grants, Opens, first, fresh_memory, granted_frame, new_super_frame_lem, has_memory, store-Opens,
  Collected-first, claimed,
}
use efp.Transfer.OpeningFull.{stream_there, marked}

module _ (g : Frame) (v : IsFrame g) (env : Env) (grants : Grants env)
    (r : ElasticFrameProtocolReceiver) (source at : ℕ) (b : Bucket) (order : ℕ) where
  abbrev size2 : ℕ
  size2 = g.fragment_size * last_no g + last_size g

  abbrev frame2 : SuperFrame
  frame2 = granted_frame env size2

  abbrev bucket2 : Bucket
  bucket2 = claimed env r g source order b (last_no g) (header2 g).frame_type (last_labels g) frame2

  opened2_lem : opened2 env r (header2 g) source order b (first (last_no g)) ≡ bucket2
  unfolding opened2 header2
  opened2_lem = rw (new_super_frame_lem env size2 grants)

  room2 : length g.content ≤ size2
  room2 = elim (last_cases g v) [
    | inl c ↦
        omega (arith, mul_comm g.fragment_size (last_no g), c.place, c.empty, v.total, v.tail_fits)
    | inr c ↦ omega (arith, mul_comm g.fragment_size (last_no g), c.place, c.rest, v.total)
  ]

  exact : HoldsTail g → size2 ≡ length g.content
  exact c = omega (arith, mul_comm g.fragment_size (last_no g), c.place, c.rest, v.total)

  sized2 : last_no g ≡ g.whole → size2 ≡ length g.content
  sized2 e = elim (last_cases g v) [ inl c ↦ absurd (omega (arith, c.number)) | inr c ↦ exact c ]

  even2 : g.tail ≡ 0 → size2 ≡ length g.content
  even2 e = elim (last_cases g v) [
    | inl c ↦ absurd (omega (arith, v.tail_needed c.needed))
    | inr c ↦ exact c
  ]

  stamped2 : (frame : SuperFrame) → Stamped g (record bucket2 { bucket_data = some frame })
  unfolding header2
  stamped2 frame = record {
    pts_is = refl;
    dts_is = dts_back g.pts g.dts (omega (arith, v.pts_fits)) v.dts_fits v.dts_near;
    code_is = refl;
    content_is = refl;
  }

  -- The place of the data: the tail's, or nothing behind the last full fragment.
  writes2 :
      (w : Writes (fresh_memory size2) g.content (g.fragment_size * last_no g) (last_size g))
      × (part g (last_start g) (last_size g) ≡ part g (g.fragment_size * last_no g) (last_size g))
      × ((x : ℕ) → InRegion g (last_no g) x → w.after.byte x ≡ get_elem? g.content x)
  unfolding fresh_memory
  writes2 = elim (last_cases g v) [
    | inl c ↦ (
      subst (λ n. Writes (fresh_memory size2) g.content (g.fragment_size * last_no g) n)
          (sym c.empty)
          (write-Writes_empty (fresh_memory size2) g.content (g.fragment_size * last_no g)
            (omega arith)),
      rw c.empty,
      λ x region.
          absurd (omega (arith, region.above, region.inside, c.place, v.total, v.tail_fits)),
    )
    | inr c ↦
        let place : last_start g ≡ g.fragment_size * last_no g =
          omega (arith, mul_comm g.fragment_size (last_no g), c.place, c.start) in
        let ends : g.fragment_size * last_no g + last_size g ≡ length g.content = exact c in
        let w : Writes (fresh_memory size2) g.content (g.fragment_size * last_no g) (last_size g) =
          write-Writes (fresh_memory size2) g.content (g.fragment_size * last_no g) (last_size g)
            (omega arith) (omega arith) in
        (
          w,
          ap (λ (t : ℕ). part g t (last_size g)) place,
          λ x region.
              w.written x (omega (arith, region.above, mul_comm g.fragment_size (last_no g)))
                (omega (arith, region.inside)),
        )
  ]

  bucket2-Collected :
      (w : Writes (fresh_memory size2) g.content (g.fragment_size * last_no g) (last_size g))
      → ((x : ℕ) → InRegion g (last_no g) x → w.after.byte x ≡ get_elem? g.content x)
      → Collected g
          (record bucket2 { bucket_data = some (record frame2 { frame_data = some w.after }) })
  unfolding header2 fresh_memory
  bucket2-Collected w own =
      Collected-first g v (last_no g)
        (record bucket2 { bucket_data = some (record frame2 { frame_data = some w.after }) })
        (record frame2 { frame_data = some w.after }) w.after (omega arith) refl refl refl refl refl
        refl (type2-Splits g.flags v.flags_fit).high refl refl refl
        (omega (arith, room2, w.same_capacity)) own sized2 even2
        (λ e. stamped2 (record frame2 { frame_data = some w.after }))

  pub open_type2-Opens : Opens g r at order (last_no g) (
      open_type2 env r
        (encode_type2 g.padding (header2 g) ++ part g (last_start g) (last_size g))
        source
        (header2 g)
        at
        b
        order)
  unfolding open_type2 header2 fresh_memory
  open_type2-Opens =
      let (w, same, own) = writes2 in
      rw
        (
          stream_there g v env grants r source at b order,
          marked g v env grants r source at b order (last_no g) (omega arith),
          opened2_lem,
          has_memory bucket2 frame2 (fresh_memory size2) refl refl,
          payload2_lem g v,
          same,
        )
        (store-Opens g r at order (last_no g) (note_stream r (header2 g)).streams bucket2 frame2
          (fresh_memory size2) (g.fragment_size * last_no g) (last_size g) refl refl w refl refl
          (bucket2-Collected w own))
