-- ===== src/Transfer.antt =====
-- A frame on its way from ElasticFrameProtocolSender to ElasticFrameProtocolReceiver: which packets
-- belong to it, by their headers and their share of the data, independent of both classes.
pub mod Count
pub mod Memory
pub mod Collected
pub mod Headers
pub mod Adding
pub mod Filling
pub mod FillingLast
pub mod Opening
pub mod OpeningTail
pub mod Dispatch
pub mod Receiving
pub mod Accepting
pub mod Claiming
pub mod Delivery
pub mod Run
pub mod FromSender
pub mod InOrder
pub mod Handover
pub mod EndToEnd
pub mod Among
pub mod OpeningFull
pub mod OpeningLast
use efp.Prelude.{
  ℕ, suc, ◌+◌, ◌-◌, ◌*◌, ◌%◌, ◌^◌, ◌≤◌, ◌<◌, ◌≡◌, Bool, true, false, bit_and, bit_or, List, ◌++◌,
  length, take, drop, if◌then◌else◌, sub_u64,
}
use efp.Wire.{
  Padding, ElasticFrameType1, ElasticFrameType2, ElasticFrameType3, encode_type1, encode_type2,
  encode_type3, type1, type2, type3,
}

-- `whole` full fragments, then `tail` bytes. With `has_type3` the tail travels in a packet of its
-- own, in front of an empty last packet. `padding` is what the header of the last packet has between
-- its fields.
pub record Frame : Type 0 where
  pub content : List ℕ
  pub number : ℕ
  pub flags : ℕ
  pub stream_id : ℕ
  pub data_content : ℕ
  pub pts : ℕ
  pub dts : ℕ
  pub code : ℕ
  pub fragment_size : ℕ
  pub whole : ℕ
  pub tail : ℕ
  pub has_type3 : Bool
  pub padding : Padding

-- The number of the last fragment.
abbrev pub last_no : Frame → ℕ
last_no g = if g.has_type3 then g.whole + 1 else g.whole

-- Where the data of the last packet starts, and its size.
abbrev pub last_start : Frame → ℕ
last_start g = if g.has_type3 then g.whole * g.fragment_size + g.tail else g.whole * g.fragment_size

abbrev pub last_size : Frame → ℕ
last_size g = length g.content - last_start g

abbrev pub part : Frame → ℕ → ℕ → List ℕ
part g start size = take size (drop start g.content)

pub record IsFrame (g : Frame) : Type 0 where
  pub total : g.whole * g.fragment_size + g.tail ≡ length g.content
  pub tail_fits : g.tail ≤ g.fragment_size
  pub tail_needed : g.has_type3 ≡ true → 0 < g.tail
  pub fragment_size_fits : g.fragment_size < 65536
  pub count_fits : last_no g < 65535
  pub number_fits : g.number < 65536
  pub flags_fit : g.flags < 256
  pub stream_fits : g.stream_id < 255
  pub content_fits : g.data_content < 256
  pub pts_fits : g.pts < 2 ^ 64 - 1
  pub dts_near : sub_u64 g.pts g.dts < 2 ^ 32 - 1
  pub dts_fits : g.dts < 2 ^ 64
  pub code_fits : g.code < 2 ^ 32 - 1

unfoldable pub header1 : Frame → ℕ → ElasticFrameType1
header1 g i = record {
  frame_type = bit_or type1 (bit_and g.flags 0xf0);
  stream = g.stream_id;
  super_frame_no = g.number;
  fragment_no = i;
  of_fragment_no = last_no g;
}

unfoldable pub header2 : Frame → ElasticFrameType2
header2 g = record {
  frame_type = bit_or type2 (bit_and g.flags 0xf0);
  stream_id = g.stream_id;
  data_content = g.data_content;
  size_of_data = last_size g;
  super_frame_no = g.number;
  of_fragment_no = last_no g;
  type1_packet_size = g.fragment_size;
  pts = g.pts;
  dts_pts_diff = sub_u64 g.pts g.dts;
  code = g.code;
}

unfoldable pub header3 : Frame → ElasticFrameType3
header3 g = record {
  frame_type = bit_or type3 (bit_and g.flags 0xf0);
  stream_id = g.stream_id;
  super_frame_no = g.number;
  type1_packet_size = g.fragment_size;
  of_fragment_no = last_no g;
}

-- The packets of the frame, with the number of the fragment that each carries.
pub data IsFragment (g : Frame) : List ℕ → ℕ → Type 0 where
  full :
      (i : ℕ)
      → i < g.whole
      → IsFragment g (encode_type1 (header1 g i) ++ part g (i * g.fragment_size) g.fragment_size) i
  tail3 :
      g.has_type3 ≡ true
      → IsFragment g (encode_type3 (header3 g) ++ part g (g.whole * g.fragment_size) g.tail) g.whole
  last :
      IsFragment g
        (encode_type2 g.padding (header2 g) ++ part g (last_start g) (last_size g))
        (last_no g)

-- The positions of the frame that fragment `i` carries.
pub record InRegion (g : Frame) (i x : ℕ) : Type 0 where
  pub above : i * g.fragment_size ≤ x
  pub below : x < i * g.fragment_size + g.fragment_size
  pub inside : x < length g.content
