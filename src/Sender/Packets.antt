-- ===== src/Sender/Packets.antt =====
-- The packets of a frame, as a list by themselves, and the loop that sends those of type 1.
use efp.Prelude.{
  ℕ, zero, suc, ◌+◌, ◌-◌, ◌*◌, ◌≤◌, ◌≡◌, refl, some, List, [], ◌∷◌, ◌++◌, arith, length, leb,
  if◌then◌else◌, Bool-cases, inl, inr,
}
use efp.Wire.{Padding, stale, encode_type1, encode_type2, encode_type3}
use efp.Sender.{
  ElasticFrameProtocolSender, Request, Cut, cut, type1_loop, type2_header, type3_header,
}
use efp.Sender.Buffer.{slice, length-slice, type1_header, IsReady, fill_type1_lem, filled-IsReady}

-- `rounds` packets of type 1, from fragment `i` on, whose data starts at `p`.
abbrev pub type1_packets :
    ElasticFrameProtocolSender → Request → Cut → ℕ → ℕ → ℕ → List (List ℕ × ℕ)
type1_packets s q c zero i p = []
type1_packets s q c (suc rounds) i p =
    (encode_type1 (type1_header s q c i) ++ slice q.packet p c.payload1, q.stream_id)
    ∷ type1_packets s q c rounds (i + 1) (p + c.payload1)

-- The loop reads and writes in bounds, and sends just these packets.
pub type1_loop_lem :
    (s : ElasticFrameProtocolSender) (q : Request) (c : Cut) (rounds : ℕ) (b : List ℕ) (i p : ℕ)
    → IsReady s q c b
    → p + rounds * c.payload1 ≤ length q.packet
    → (last : List ℕ) × (type1_loop q c rounds b i p ≡ some (last, type1_packets s q c rounds i p))
      × IsReady s q c last
unfolding type1_loop
type1_loop_lem s q c zero b i p r h = (b, refl, r)
type1_loop_lem s q c (suc rounds) b i p r h =
    let fits : p + c.payload1 ≤ length q.packet = omega arith in
    let (last, e, r') =
      type1_loop_lem s q c rounds
        (encode_type1 (type1_header s q c i) ++ slice q.packet p c.payload1) (i + 1)
        (p + c.payload1)
        (filled-IsReady s q c i (slice q.packet p c.payload1)
          (length-slice q.packet p c.payload1 fits))
        (omega arith) in
    (last, rw (fill_type1_lem s q c b i p r fits, e), r')

-- Where the last packet's data starts.
abbrev pub last_pointer : Cut → ℕ
last_pointer c =
    if c.type3_needed
    then c.of_fragment_no_type1 * c.payload1 + c.reminder_data
    else c.of_fragment_no_type1 * c.payload1

abbrev pub type3_packets : ElasticFrameProtocolSender → Request → Cut → List (List ℕ × ℕ)
type3_packets s q c =
    if c.type3_needed
    then (
      encode_type3 (type3_header s q c)
          ++ slice q.packet (c.of_fragment_no_type1 * c.payload1) c.reminder_data,
      q.stream_id,
    )
      ∷ []
    else []

-- What mSendBufferEnd holds when the last packet is written into it.
abbrev pub last_buffer : ElasticFrameProtocolSender → Request → Cut → List ℕ
last_buffer s q c =
    if c.type3_needed
    then encode_type3 (type3_header s q c)
      ++ slice q.packet (c.of_fragment_no_type1 * c.payload1) c.reminder_data
    else s.send_buffer_end

abbrev pub last_packet : Padding → ElasticFrameProtocolSender → Request → Cut → List ℕ × ℕ
last_packet padding s q c =
    let left = length q.packet - last_pointer c in
    (
      encode_type2 padding (type2_header s q left c.of_fragment_no (s.current_mtu - 8))
          ++ slice q.packet (last_pointer c) left,
      q.stream_id,
    )

abbrev pub single_packet : Padding → ElasticFrameProtocolSender → Request → List ℕ × ℕ
single_packet padding s q = (
  encode_type2 padding (type2_header s q (length q.packet) 0 (length q.packet))
      ++ slice q.packet 0 (length q.packet),
  q.stream_id,
)

-- All packets of a frame, in the order in which they are sent, with some padding in the last one.
unfoldable pub packets_with : Padding → ElasticFrameProtocolSender → Request → List (List ℕ × ℕ)
packets_with padding s q =
    let c = cut s.current_mtu (length q.packet) in
    if leb (length q.packet + 32) s.current_mtu
    then single_packet padding s q ∷ []
    else (type1_packets s q c c.of_fragment_no_type1 0 0 ++ type3_packets s q c)
      ++ (last_packet padding s q c ∷ [])

-- The packets with the padding that packAndSendFromPtr leaves there.
unfoldable pub packets : ElasticFrameProtocolSender → Request → List (List ℕ × ℕ)
packets s q =
    let c = cut s.current_mtu (length q.packet) in
    if leb (length q.packet + 32) s.current_mtu
    then single_packet (stale s.send_buffer_end) s q ∷ []
    else (type1_packets s q c c.of_fragment_no_type1 0 0 ++ type3_packets s q c)
      ++ (last_packet (stale (last_buffer s q c)) s q c ∷ [])

-- They are packets with some padding.
pub packets-packets_with :
    (s : ElasticFrameProtocolSender) (q : Request)
    → (padding : Padding) × (packets s q ≡ packets_with padding s q)
unfolding packets packets_with
packets-packets_with s q = elim (Bool-cases (leb (length q.packet + 32) s.current_mtu)) [
  | inl small ↦ (stale s.send_buffer_end, rw small refl)
  | inr large ↦ (stale (last_buffer s q (cut s.current_mtu (length q.packet))), rw large refl)
]
