-- ===== src/Embedded.antt =====
-- ElasticFrameProtocol.cpp: addEmbeddedData of the sender, extractEmbeddedData of the receiver and
-- efp_add_embedded_data of the C API. Sections of embedded data stand in front of the payload, each
-- behind a header; the last one's type has its highest bit set. `none` stands for a read outside the
-- frame's memory.
pub mod RoundTrip
pub mod Loop
pub mod Rounds
pub mod Adding
use efp.Prelude.{
  ℕ, zero, suc, ◌+◌, ◌%◌, bit_and, bit_or, Bool, true, false, Option, none, some, List, [], ◌∷◌,
  ◌++◌, not, length, drop, ltb, leb, ◌==◌, if◌then◌else◌, u16_max, ◌>>=◌,
}
use efp.Prelude.Bytes.{le_bytes, le_value}
use efp.Message.{
  ElasticFrameMessages, no_error, illegal_embedded_data, buffer_out_of_bounds,
  too_large_embedded_data,
}
use efp.Frames.{Memory, SuperFrame}
use efp.Sender.{overwrite}

-- ElasticEmbeddedHeader is not packed: a byte of padding, here `pad`, stands between its fields.
pub record ElasticEmbeddedHeader : Type 0 where
  pub embedded_frame_type : ℕ
  pub pad : ℕ
  pub size : ℕ

abbrev pub header_size : ℕ
header_size = 4

abbrev pub illegal : ℕ
illegal = 0x00

abbrev pub lastembeddedcontent : ℕ
lastembeddedcontent = 0x80

unfoldable pub encode_header : ElasticEmbeddedHeader → List ℕ
encode_header h = le_bytes 1 h.embedded_frame_type ++ (le_bytes 1 h.pad ++ le_bytes 2 h.size)

-- The type byte of a section.
abbrev pub section_type : ℕ → Bool → ℕ
section_type content is_last = if is_last then bit_or content lastembeddedcontent else content

-- Returns the packet with the section in front; `pad` is what the padding holds.
unfoldable pub add_embedded_data : ℕ → List ℕ → List ℕ → ℕ → Bool → ElasticFrameMessages × List ℕ
add_embedded_data pad packet private_data content is_last =
    if ltb u16_max (length private_data) then (too_large_embedded_data, packet) else (
      no_error,
      encode_header (record {
        embedded_frame_type = section_type content is_last;
        pad = pad;
        size = length private_data % 65536;
      })
          ++ (private_data ++ packet),
    )

-- efp_add_embedded_data. pDst is nullptr or some memory: without it the call answers the size that is
-- needed there, with it 0 and the memory afterwards, into which the header, the data and the payload are
-- copied one behind the other. No size is tested.
unfoldable pub efp_add_embedded_data :
    ℕ → Option (List ℕ) → List ℕ → List ℕ → ℕ → Bool → Option (ℕ × Option (List ℕ))
efp_add_embedded_data pad none embedded payload content is_last =
    some (header_size + length embedded + length payload, none)
efp_add_embedded_data pad (some memory) embedded payload content is_last = do
  written ← overwrite memory 0 (
      encode_header (record {
        embedded_frame_type = section_type content is_last;
        pad = pad;
        size = length embedded % 65536;
      })
      ++ (embedded ++ payload))
  some (0, some written)

-- `size` bytes from `start` on.
unfoldable pub read : Memory → ℕ → ℕ → Option (List ℕ)
read m start zero = some []
read m start (suc size) = do
  first ← if ltb start m.capacity then m.byte start else none
  rest ← read m (start + 1) size
  some (first ∷ rest)

-- The message with what was appended to the lists, and the position reached.
pub record Extraction : Type 0 where
  pub message : ElasticFrameMessages
  pub contents : List ℕ
  pub sections : List (List ℕ)
  pub payload_position : ℕ

-- The loop, by the rounds left; `some none` says that they were too few. Each round moves on by a header
-- at least and goes on only inside the frame, so one more than the frame's size is enough.
unfoldable pub extract_loop :
    ℕ → ℕ → Memory → List ℕ → List (List ℕ) → ℕ → Option (Option Extraction)
extract_loop zero frame_size m contents sections position = some none
extract_loop (suc rounds) frame_size m contents sections position = do
  header ← read m position header_size
  let t = le_value 1 header
  let n = le_value 2 (drop 2 header)
  if t == illegal
      then some (
          some (record {
            message = illegal_embedded_data;
            contents = contents;
            sections = sections;
            payload_position = position;
          }))
      else (do
        section ← read m (position + header_size) n
        let contents1 = contents ++ (bit_and t 0x7f ∷ [])
        let sections1 = sections ++ (section ∷ [])
        let position1 = position + (n + header_size)
        let more = extract_loop rounds frame_size m contents1 sections1 position1
        if leb frame_size position1
            then some (
                some (record {
                  message = buffer_out_of_bounds;
                  contents = contents1;
                  sections = sections1;
                  payload_position = position1;
                }))
            else if not (bit_and t 0x80 == 0)
            then some (
                some (record {
                  message = no_error;
                  contents = contents1;
                  sections = sections1;
                  payload_position = position1;
                }))
            else more)

unfoldable pub extract_embedded_data : SuperFrame → ℕ → Option Extraction
extract_embedded_data frame position = do
  m ← frame.frame_data
  x ← extract_loop (frame.frame_size + 1) frame.frame_size m [] [] position
  x
