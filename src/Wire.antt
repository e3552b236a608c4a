-- ===== src/Wire.antt =====
-- ElasticInternal.h: the packet headers, read and written byte by byte, as g++ lays them out on a
-- little-endian host. The packing pragma is popped ahead of the end of each struct and has no effect
-- there: the fields stand at multiples of their sizes, so a header of type 1 or 3 has 8 bytes, and one
-- of type 2 has 32, with a byte of padding behind hDataContent and four behind hType1PacketSize. (With
-- __ANDROID__ the structs are packed, and the type 2 header has 27 bytes.)
pub mod RoundTrip
pub mod FrameType
use efp.Prelude.{ℕ, ◌<◌, ◌^◌, List, ◌++◌, drop}
use efp.Prelude.Bytes.{le_bytes, le_value}

-- enum Frametype.
abbrev pub type0 : ℕ
type0 = 0

abbrev pub type1 : ℕ
type1 = 1

abbrev pub type2 : ℕ
type2 = 2

abbrev pub type3 : ℕ
type3 = 3

pub record ElasticFrameType1 : Type 0 where
  pub frame_type : ℕ
  pub stream : ℕ
  pub super_frame_no : ℕ
  pub fragment_no : ℕ
  pub of_fragment_no : ℕ

pub record ElasticFrameType2 : Type 0 where
  pub frame_type : ℕ
  pub stream_id : ℕ
  pub data_content : ℕ
  pub size_of_data : ℕ
  pub super_frame_no : ℕ
  pub of_fragment_no : ℕ
  pub type1_packet_size : ℕ
  pub pts : ℕ
  pub dts_pts_diff : ℕ
  pub code : ℕ

pub record ElasticFrameType3 : Type 0 where
  pub frame_type : ℕ
  pub stream_id : ℕ
  pub super_frame_no : ℕ
  pub type1_packet_size : ℕ
  pub of_fragment_no : ℕ

-- sizeof of the three structs.
abbrev pub type1_size : ℕ
type1_size = 8

abbrev pub type2_size : ℕ
type2_size = 32

abbrev pub type3_size : ℕ
type3_size = 8

unfoldable pub encode_type1 : ElasticFrameType1 → List ℕ
unfolding le_bytes
encode_type1 h =
    le_bytes 1 h.frame_type
    ++ (le_bytes 1 h.stream
        ++ (le_bytes 2 h.super_frame_no
            ++ (le_bytes 2 h.fragment_no ++ le_bytes 2 h.of_fragment_no)))

-- The padding bytes of a type 2 header, as the two values that they hold.
pub record Padding : Type 0 where
  pub behind_content : ℕ
  pub behind_packet_size : ℕ

-- No field is there: a header that is written over some memory leaves the memory's bytes there. Where
-- the memory ends earlier, it has just been enlarged with zeros.
unfoldable pub stale : List ℕ → Padding
stale memory = record {
  behind_content = le_value 1 (drop 3 memory);
  behind_packet_size = le_value 4 (drop 12 memory);
}

unfoldable pub encode_type2 : Padding → ElasticFrameType2 → List ℕ
unfolding le_bytes
encode_type2 padding h =
    le_bytes 1 h.frame_type
    ++ (le_bytes 1 h.stream_id
        ++ (le_bytes 1 h.data_content
            ++ (le_bytes 1 padding.behind_content
                ++ (le_bytes 2 h.size_of_data
                    ++ (le_bytes 2 h.super_frame_no
                        ++ (le_bytes 2 h.of_fragment_no
                            ++ (le_bytes 2 h.type1_packet_size
                                ++ (le_bytes 4 padding.behind_packet_size
                                    ++ (le_bytes 8 h.pts
                                        ++ (le_bytes 4 h.dts_pts_diff ++ le_bytes 4 h.code))))))))))

unfoldable pub encode_type3 : ElasticFrameType3 → List ℕ
unfolding le_bytes
encode_type3 h =
    le_bytes 1 h.frame_type
    ++ (le_bytes 1 h.stream_id
        ++ (le_bytes 2 h.super_frame_no
            ++ (le_bytes 2 h.type1_packet_size ++ le_bytes 2 h.of_fragment_no)))

-- reinterpret_cast<const ElasticFrameType1*>(pSubPacket)
unfoldable pub decode_type1 : List ℕ → ElasticFrameType1
unfolding le_value
decode_type1 p = record {
  frame_type = le_value 1 p;
  stream = le_value 1 (drop 1 p);
  super_frame_no = le_value 2 (drop 2 p);
  fragment_no = le_value 2 (drop 4 p);
  of_fragment_no = le_value 2 (drop 6 p);
}

unfoldable pub decode_type2 : List ℕ → ElasticFrameType2
unfolding le_value
decode_type2 p = record {
  frame_type = le_value 1 p;
  stream_id = le_value 1 (drop 1 p);
  data_content = le_value 1 (drop 2 p);
  size_of_data = le_value 2 (drop 4 p);
  super_frame_no = le_value 2 (drop 6 p);
  of_fragment_no = le_value 2 (drop 8 p);
  type1_packet_size = le_value 2 (drop 10 p);
  pts = le_value 8 (drop 16 p);
  dts_pts_diff = le_value 4 (drop 24 p);
  code = le_value 4 (drop 28 p);
}

unfoldable pub decode_type3 : List ℕ → ElasticFrameType3
unfolding le_value
decode_type3 p = record {
  frame_type = le_value 1 p;
  stream_id = le_value 1 (drop 1 p);
  super_frame_no = le_value 2 (drop 2 p);
  type1_packet_size = le_value 2 (drop 4 p);
  of_fragment_no = le_value 2 (drop 6 p);
}

-- The fields fit their types.
pub record IsType1 (h : ElasticFrameType1) : Type 0 where
  pub frame_type_fits : h.frame_type < 256
  pub stream_fits : h.stream < 256
  pub super_frame_no_fits : h.super_frame_no < 65536
  pub fragment_no_fits : h.fragment_no < 65536
  pub of_fragment_no_fits : h.of_fragment_no < 65536

pub record IsType2 (h : ElasticFrameType2) : Type 0 where
  pub frame_type_fits : h.frame_type < 256
  pub stream_id_fits : h.stream_id < 256
  pub data_content_fits : h.data_content < 256
  pub size_of_data_fits : h.size_of_data < 65536
  pub super_frame_no_fits : h.super_frame_no < 65536
  pub of_fragment_no_fits : h.of_fragment_no < 65536
  pub type1_packet_size_fits : h.type1_packet_size < 65536
  pub pts_fits : h.pts < 2 ^ 64
  pub dts_pts_diff_fits : h.dts_pts_diff < 2 ^ 32
  pub code_fits : h.code < 2 ^ 32

pub record IsType3 (h : ElasticFrameType3) : Type 0 where
  pub frame_type_fits : h.frame_type < 256
  pub stream_id_fits : h.stream_id < 256
  pub super_frame_no_fits : h.super_frame_no < 65536
  pub type1_packet_size_fits : h.type1_packet_size < 65536
  pub of_fragment_no_fits : h.of_fragment_no < 65536
