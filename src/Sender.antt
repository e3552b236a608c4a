-- ===== src/Sender.antt =====
-- ElasticFrameProtocol.cpp, class ElasticFrameProtocolSender: packAndSendFromPtr cuts a frame into
-- packets. A call returns its message, the sender afterwards and the packets in the order in which
-- they were handed to the send function; `none` stands for undefined behaviour, here a read or
-- write outside a buffer.
pub mod Buffer
pub mod Packets
pub mod Arithmetic
pub mod Complete
pub mod SmallMtu
pub mod InPlace
pub mod Destructive
pub mod Equivalence
use efp.Prelude.{
  ◌>>=◌, ℕ, zero, suc, ◌+◌, ◌-◌, ◌*◌, ◌/◌, ◌%◌, ◌^◌, bit_and, bit_or, Bool, not, ◌&&◌, Option, none,
  some, List, [], ◌∷◌, ◌++◌, length, take, drop, ltb, leb, ◌==◌, if◌then◌else◌, u8_max, u16_max,
  u32_max, u64_max, sub_u64,
}
use efp.Prelude.Bytes.{le_bytes}
use efp.Message.{
  ElasticFrameMessages, no_error, reserved_pts_value, reserved_dts_value, reserved_code_value,
  reserved_stream_value, dtspts_diff_to_large, too_large_frame, internal_calculation_error,
  type1_and3_size_error, efpsig,
}
use efp.Wire.{
  ElasticFrameType2, ElasticFrameType3, stale, encode_type2, encode_type3, type1, type2, type3,
  type1_size, type2_size, type3_size,
}

pub record ElasticFrameProtocolSender : Type 0 where
  pub current_mtu : ℕ
  pub super_frame_no_generator : ℕ
  pub send_buffer_fixed : List ℕ
  pub send_buffer_end : List ℕ

-- The arguments of packAndSendFromPtr; the packet is pPacket with its lPacketSize bytes.
pub record Request : Type 0 where
  pub packet : List ℕ
  pub data_content : ℕ
  pub pts : ℕ
  pub dts : ℕ
  pub code : ℕ
  pub stream_id : ℕ
  pub flags : ℕ

pub record Sending : Type 0 where
  pub message : ElasticFrameMessages
  pub sender : ElasticFrameProtocolSender
  pub sent : List (List ℕ × ℕ)

abbrev pub zeros : ℕ → List ℕ
zeros zero = []
zeros (suc n) = 0 ∷ zeros n

-- The constructor. The buffer for type 1 packets has the size that was asked for, and the MTU is
-- raised to 255 after that.
unfoldable pub new_sender : ℕ → ElasticFrameProtocolSender
new_sender set_mtu = record {
  current_mtu = if ltb set_mtu u8_max then u8_max else set_mtu;
  super_frame_no_generator = 0;
  send_buffer_fixed = zeros set_mtu;
  send_buffer_end = [];
}

-- std::copy_n from `size` bytes at `start` of a source, which must hold them.
unfoldable pub copy_n : List ℕ → ℕ → ℕ → Option (List ℕ)
copy_n source start size =
    if leb (start + size) (length source) then some (take size (drop start source)) else none

-- A write of some bytes at `start` of a buffer, which must have room for them.
unfoldable pub overwrite : List ℕ → ℕ → List ℕ → Option (List ℕ)
overwrite buffer start bytes =
    if leb (start + length bytes) (length buffer)
    then some (take start buffer ++ (bytes ++ drop (start + length bytes) buffer))
    else none

-- lPtsDtsDiff
abbrev pub pts_dts_diff : Request → ℕ
pts_dts_diff q = sub_u64 q.pts q.dts

-- lFlags &= 0xf0
abbrev pub flag_bits : Request → ℕ
flag_bits q = bit_and q.flags 0xf0

-- The largest frame that fits: 65534 packets of type 1 and a packet of type 2.
abbrev pub size_limit : ℕ → ℕ
size_limit mtu = (mtu - type1_size) * (u16_max - 1) + (mtu - type2_size)

-- The early returns of packAndSendFromPtr, in their order.
unfoldable pub refusal : ElasticFrameProtocolSender → Request → Option ElasticFrameMessages
refusal s q =
    if not (type1_size == type3_size)
    then some type1_and3_size_error
    else if q.pts == u64_max
    then some reserved_pts_value
    else if q.dts == u64_max
    then some reserved_dts_value
    else if q.code == u32_max
    then some reserved_code_value
    else if (q.stream_id == 0) && not (q.data_content == efpsig)
    then some reserved_stream_value
    else if leb u32_max (pts_dts_diff q)
    then some dtspts_diff_to_large
    else if ltb (size_limit s.current_mtu) (length q.packet)
    then some too_large_frame
    else none

-- A packet of type 2; the last one of a frame, or the only one.
unfoldable pub type2_header : ElasticFrameProtocolSender → Request → ℕ → ℕ → ℕ → ElasticFrameType2
type2_header s q size of_fragment_no type1_packet_size = record {
  frame_type = bit_or type2 (flag_bits q);
  stream_id = q.stream_id;
  data_content = q.data_content;
  size_of_data = size % 65536;
  super_frame_no = s.super_frame_no_generator;
  of_fragment_no = of_fragment_no;
  type1_packet_size = type1_packet_size % 65536;
  pts = q.pts;
  dts_pts_diff = pts_dts_diff q % 2 ^ 32;
  code = q.code;
}

unfoldable pub next_super_frame : ElasticFrameProtocolSender → ElasticFrameProtocolSender
next_super_frame s = record s {
  super_frame_no_generator = (s.super_frame_no_generator + 1) % 65536;
}

-- The frame fits one packet. Its header is written over what mSendBufferEnd holds.
unfoldable pub send_single : ElasticFrameProtocolSender → Request → Option Sending
send_single s q = do
  payload ← copy_n q.packet 0 (length q.packet)
  let packet =
      encode_type2 (stale s.send_buffer_end)
        (type2_header s q (length q.packet) 0 (length q.packet))
      ++ payload
  some (record {
    message = no_error;
    sender = next_super_frame (record s { send_buffer_end = packet });
    sent = (packet, q.stream_id) ∷ [];
  })

-- How a frame is cut. With sizes below 2 ^ 32 the quotient of doubles is rounded by less than its
-- distance from the next integer, so `floor` of it is the quotient of the integers.
pub record Cut : Type 0 where
  pub payload1 : ℕ
  pub payload2 : ℕ
  pub of_fragment_no_type1 : ℕ
  pub reminder_data : ℕ
  pub type3_needed : Bool
  pub of_fragment_no : ℕ

unfoldable pub cut : ℕ → ℕ → Cut
cut mtu size = record {
  payload1 = payload1;
  payload2 = payload2;
  of_fragment_no_type1 = whole;
  reminder_data = rest;
  type3_needed = ltb payload2 rest;
  of_fragment_no = if ltb payload2 rest then (whole + 1) % 65536 else whole;
}
  where
    payload1 : ℕ
    payload1 = (mtu - type1_size) % 65536

    payload2 : ℕ
    payload2 = (mtu - type2_size) % 65536

    whole : ℕ
    whole = size / (mtu - type1_size) % 65536

    rest : ℕ
    rest = size - whole * payload1

-- The header fields of mSendBufferFixed that stay the same for all packets of a frame.
unfoldable pub start_type1 : ElasticFrameProtocolSender → Request → Cut → Option (List ℕ)
start_type1 s q c = do
  buffer ← overwrite s.send_buffer_fixed 0 (
      le_bytes 1 (bit_or type1 (flag_bits q))
      ++ (le_bytes 1 q.stream_id ++ le_bytes 2 s.super_frame_no_generator))
  overwrite buffer 6 (le_bytes 2 c.of_fragment_no)

-- One round of the loop over the type 1 packets.
unfoldable pub fill_type1 : Request → Cut → List ℕ → ℕ → ℕ → Option (List ℕ)
fill_type1 q c buffer fragment_no data_pointer = do
  numbered ← overwrite buffer 4 (le_bytes 2 fragment_no)
  payload ← copy_n q.packet data_pointer c.payload1
  overwrite numbered type1_size payload

-- The loop, by the rounds left: the buffer at its end and the packets sent, oldest first.
unfoldable pub type1_loop : Request → Cut → ℕ → List ℕ → ℕ → ℕ → Option (List ℕ × List (List ℕ × ℕ))
type1_loop q c zero buffer fragment_no data_pointer = some (buffer, [])
type1_loop q c (suc rounds) buffer fragment_no data_pointer = do
  filled ← fill_type1 q c buffer fragment_no data_pointer
  (last, sent) ← type1_loop q c rounds filled (fragment_no + 1) (data_pointer + c.payload1)
  some (last, (filled, q.stream_id) ∷ sent)

unfoldable pub type3_header : ElasticFrameProtocolSender → Request → Cut → ElasticFrameType3
type3_header s q c = record {
  frame_type = bit_or type3 (flag_bits q);
  stream_id = q.stream_id;
  super_frame_no = s.super_frame_no_generator;
  type1_packet_size = (s.current_mtu - type1_size) % 65536;
  of_fragment_no = c.of_fragment_no;
}

-- The packet that takes a reminder too large for a packet of type 2, if there is one.
unfoldable pub send_type3 :
    ElasticFrameProtocolSender
    → Request
    → Cut
    → ℕ
    → Option (ElasticFrameProtocolSender × List (List ℕ × ℕ))
send_type3 s q c data_pointer =
    if c.type3_needed
    then (do
      payload ← copy_n q.packet data_pointer c.reminder_data
      let packet = encode_type3 (type3_header s q c) ++ payload
      some (record s { send_buffer_end = packet }, (packet, q.stream_id) ∷ []))
    else some (s, [])

abbrev fail_after : ElasticFrameProtocolSender → List (List ℕ × ℕ) → Sending
fail_after s sent = record { message = internal_calculation_error; sender = s; sent = sent }

-- The last packet, behind the checks for calculation errors.
unfoldable pub send_last :
    ElasticFrameProtocolSender → Request → Cut → ℕ → ℕ → List (List ℕ × ℕ) → Option Sending
send_last s q c fragment_no data_pointer sent =
    let left = length q.packet - data_pointer in
    if c.type3_needed && not (left == 0)
    then some (fail_after s sent)
    else if ltb s.current_mtu (left + type2_size)
    then some (fail_after s sent)
    else if not (c.of_fragment_no == fragment_no)
    then some (fail_after s sent)
    else (do
      payload ← copy_n q.packet data_pointer left
      let packet =
          encode_type2 (stale s.send_buffer_end)
            (type2_header s q left c.of_fragment_no (s.current_mtu - type1_size))
          ++ payload
      some (record {
        message = no_error;
        sender = next_super_frame (record s { send_buffer_end = packet });
        sent = sent ++ ((packet, q.stream_id) ∷ []);
      }))

-- The frame does not fit one packet.
unfoldable pub send_fragments : ElasticFrameProtocolSender → Request → Option Sending
send_fragments s q =
    let c = cut s.current_mtu (length q.packet) in
    do
      start ← start_type1 s q c
      (buffer, sent1) ← type1_loop q c c.of_fragment_no_type1 start 0 0
      let after1 = c.of_fragment_no_type1 * c.payload1
      (s3, sent3) ← send_type3 (record s { send_buffer_fixed = buffer }) q c after1
      if c.type3_needed && not (after1 + c.reminder_data == length q.packet)
          then some (fail_after s3 sent1)
          else send_last s3 q c
              (if c.type3_needed then c.of_fragment_no_type1 + 1 else c.of_fragment_no_type1)
              (if c.type3_needed then after1 + c.reminder_data else after1) (sent1 ++ sent3)

unfoldable pub pack_and_send_from_ptr : ElasticFrameProtocolSender → Request → Option Sending
pack_and_send_from_ptr s q = elim (refusal s q) [
  | some m ↦ some (record { message = m; sender = s; sent = [] })
  | none ↦
      if leb (length q.packet + type2_size) s.current_mtu
      then send_single s q
      else send_fragments s q
]
