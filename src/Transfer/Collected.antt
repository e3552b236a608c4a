-- ===== src/Transfer/Collected.antt =====
-- A bucket that collects the fragments of a frame: the invariant, and that it makes the frame right
-- once all fragments are there.
use efp.Prelude.{ℕ, suc, ◌≤◌, ◌≡◌, true, some, length, get_elem?, bit_and}
use efp.Receiver.{Bucket}
use efp.Frames.{SuperFrame, Memory}
use efp.Transfer.{Frame, InRegion, last_no}
use efp.Transfer.Count.{count}

-- The fields that only the last packet brings.
pub record Stamped (g : Frame) (b : Bucket) : Type 0 where
  pub pts_is : b.pts ≡ g.pts
  pub dts_is : b.dts ≡ g.dts
  pub code_is : b.code ≡ g.code
  pub content_is : b.data_content ≡ g.data_content

pub record Collected (g : Frame) (b : Bucket) : Type 0 where
  pub frame : SuperFrame
  pub memory : Memory
  pub data_is : b.bucket_data ≡ some frame
  pub memory_is : frame.frame_data ≡ some memory
  pub active_is : b.active ≡ true
  pub number_is : b.saved_super_frame_no ≡ g.number
  pub last_is : b.of_fragment_no ≡ last_no g
  pub fragment_size_is : b.fragment_size ≡ g.fragment_size
  pub flags_is : b.flags ≡ bit_and g.flags 0xf0
  pub stream_is : b.stream ≡ g.stream_id
  -- The first fragment is not counted.
  pub counted : suc b.fragment_counter ≡ count b.have_received_fragment (suc (last_no g))
  pub room : length g.content ≤ memory.capacity
  pub bytes :
      (i x : ℕ)
      → b.have_received_fragment i ≡ true
      → InRegion g i x
      → memory.byte x ≡ get_elem? g.content x
  pub sized : b.have_received_fragment g.whole ≡ true → frame.frame_size ≡ length g.content
  pub sized_even : g.tail ≡ 0 → frame.frame_size ≡ length g.content
  pub stamped : b.have_received_fragment (last_no g) ≡ true → Stamped g b
