-- ===== src/Transfer/Delivery.antt =====
-- What assemble makes of a bucket that has all fragments of a frame.
use efp.Prelude.{
  ℕ, zero, suc, ◌+◌, ◌*◌, ◌≤◌, ◌<◌, ◌≡◌, sym, ◌∙◌, arith, true, false, some, length, get_elem?,
  bit_and, ltb, Bool-cases, inl, inr,
}
use efp.Receiver.{Bucket}
use efp.Frames.{SuperFrame, Memory}
use efp.Receiver.Deliver.{assemble, is_complete, hand_over}
use efp.Transfer.{Frame, IsFrame, InRegion, last_no}
use efp.Transfer.Count.{count_all, count_full}
use efp.Transfer.Collected.{Collected, Stamped}

-- The delivered frame `s` is the frame `g`.
pub record Restores (g : Frame) (s : SuperFrame) : Type 0 where
  pub memory : Memory
  pub memory_is : s.frame_data ≡ some memory
  pub size_is : s.frame_size ≡ length g.content
  pub bytes : (x : ℕ) → x < length g.content → memory.byte x ≡ get_elem? g.content x
  pub unbroken : s.broken ≡ false
  pub number_is : s.super_frame_no ≡ g.number
  pub stream_is : s.stream_id ≡ g.stream_id
  pub flags_is : s.flags ≡ bit_and g.flags 0xf0
  pub content_is : s.data_content ≡ g.data_content
  pub pts_is : s.pts ≡ g.pts
  pub dts_is : s.dts ≡ g.dts
  pub code_is : s.code ≡ g.code

region_of_whole :
    (size whole x : ℕ)
    → x < whole * size
    → (i : ℕ) × (i < whole) × (i * size ≤ x) × (x < i * size + size)
region_of_whole size zero x h = absurd (ground (arith, h))
region_of_whole size (suc k) x h = elim (Bool-cases (ltb x (k * size))) [
  | inl below ↦
      let (i, i_less, above, under) = region_of_whole size k x (ground arith) in
      (i, ground arith, above, under)
  | inr over ↦ (k, ground arith, ground arith, ground arith)
]

-- Every position of the data is in the region of a fragment.
region_of :
    (g : Frame)
    → IsFrame g
    → (x : ℕ) → x < length g.content
    → (i : ℕ) × (i < suc (last_no g)) × InRegion g i x
region_of g v x h = elim (Bool-cases (ltb x (g.whole * g.fragment_size))) [
  | inl below ↦
      let (i, i_less, above, under) = region_of_whole g.fragment_size g.whole x (ground arith) in
      (i, ground arith, record { above = above; below = under; inside = h })
  | inr over ↦ (
    g.whole,
    ground arith,
    record { above = ground arith; below = ground (arith, v.total, v.tail_fits); inside = h },
  )
]

module _ (g : Frame) (b : Bucket) (c : Collected g b) where
  -- A bucket that collects a frame is complete exactly when it has every fragment of the frame.
  pub complete_all :
      is_complete b ≡ true → (i : ℕ) → i < suc (last_no g) → b.have_received_fragment i ≡ true
  complete_all h i less =
      count_all b.have_received_fragment (suc (last_no g)) i
        (sym c.counted ∙ ground (arith, c.last_is)) less

  pub all_complete :
      ((i : ℕ) → i < suc (last_no g) → b.have_received_fragment i ≡ true) → is_complete b ≡ true
  all_complete all =
      ground
        (arith, c.last_is, c.counted, count_full b.have_received_fragment (suc (last_no g)) all)

  -- A complete bucket hands over the frame that it collects: every byte, the size, the number, the
  -- stream, the time stamps, the code, the content and the flags, not marked broken.
  pub complete-Restores :
      IsFrame g → is_complete b ≡ true → (s : SuperFrame) × (assemble b ≡ some s) × Restores g s
  unfolding assemble
  complete-Restores v done =
      let has = complete_all done in
      let stamp : Stamped g b = c.stamped (has (last_no g) (ground arith)) in
      (
        hand_over b c.frame,
        rw c.data_is,
        record {
          memory = c.memory;
          memory_is = c.memory_is;
          size_is = c.sized (has g.whole (ground arith));
          bytes = λ x h. let (i, less, here) = region_of g v x h in c.bytes i x (has i less) here;
          unbroken = rw done;
          number_is = c.number_is;
          stream_is = c.stream_is;
          flags_is = c.flags_is;
          content_is = stamp.content_is;
          pts_is = stamp.pts_is;
          dts_is = stamp.dts_is;
          code_is = stamp.code_is;
        },
      )
