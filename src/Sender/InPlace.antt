-- ===== src/Sender/InPlace.antt =====
-- ElasticFrameProtocol.cpp, destructivePackAndSendFromPtr: the headers are written into the memory in
-- front of the data that they belong to, over the data that was sent before it.
use efp.Prelude.{
  ℕ, zero, suc, ◌+◌, ◌-◌, ◌*◌, not, ◌&&◌, Option, none, some, List, [], ◌∷◌, ◌++◌, length, drop,
  leb, ltb, ◌==◌, if◌then◌else◌, ◌>>=◌,
}
use efp.Message.{ElasticFrameMessages, no_error, internal_calculation_error}
use efp.Wire.{stale, encode_type1, encode_type2, encode_type3, type1_size, type2_size, type3_size}
use efp.Sender.{
  ElasticFrameProtocolSender, Request, Cut, cut, refusal, copy_n, overwrite, next_super_frame,
  type2_header, type3_header,
}
use efp.Sender.Buffer.{type1_header}

-- The memory that pPacket points into, and the packets in the order in which they were sent.
pub record InPlaceSending : Type 0 where
  pub message : ElasticFrameMessages
  pub sender : ElasticFrameProtocolSender
  pub memory : List ℕ
  pub sent : List (List ℕ)

-- A header is written so that it ends at `end`, and `size` bytes are sent from its start on.
unfoldable pub emit : List ℕ → ℕ → List ℕ → ℕ → Option (List ℕ × List ℕ)
emit memory end header size =
    if leb (length header) end
    then (do
      written ← overwrite memory (end - length header) header
      packet ← copy_n written (end - length header) size
      some (written, packet))
    else none

-- The loop over the type 1 packets, by the rounds left; the data of fragment `i` starts at `end`.
unfoldable pub type1_in_place :
    ElasticFrameProtocolSender
    → Request
    → Cut
    → ℕ
    → List ℕ
    → ℕ
    → ℕ
    → Option (List ℕ × List (List ℕ))
type1_in_place s q c zero memory end i = some (memory, [])
type1_in_place s q c (suc rounds) memory end i = do
  (written, packet) ← emit memory end (encode_type1 (type1_header s q c i)) s.current_mtu
  (last, sent) ← type1_in_place s q c rounds written (end + c.payload1) (i + 1)
  some (last, packet ∷ sent)

unfoldable pub type3_in_place :
    ElasticFrameProtocolSender → Request → Cut → List ℕ → ℕ → Option (List ℕ × List (List ℕ))
type3_in_place s q c memory end =
    if c.type3_needed
    then (do
      (written, packet) ←
          emit memory end (encode_type3 (type3_header s q c)) (c.reminder_data + type3_size)
      some (written, packet ∷ []))
    else some (memory, [])

abbrev fail_in_place : ElasticFrameProtocolSender → List ℕ → List (List ℕ) → InPlaceSending
fail_in_place s memory sent = record {
  message = internal_calculation_error;
  sender = s;
  memory = memory;
  sent = sent;
}

-- The last packet; `data_pointer` counts from pPacket, which is at `start` of the memory.
unfoldable pub last_in_place :
    ElasticFrameProtocolSender
    → Request
    → Cut
    → ℕ
    → ℕ
    → List ℕ
    → ℕ
    → List (List ℕ)
    → Option InPlaceSending
last_in_place s q c fragment_no start memory data_pointer sent =
    let left = length q.packet - data_pointer in
    if c.type3_needed && not (left == 0)
    then some (fail_in_place s memory sent)
    else if ltb s.current_mtu (left + type2_size)
    then some (fail_in_place s memory sent)
    else if not (c.of_fragment_no == fragment_no)
    then some (fail_in_place s memory sent)
    else (do
      (written, packet) ←
          emit memory (start + data_pointer)
            (encode_type2 (stale (drop (start + data_pointer - type2_size) memory))
              (type2_header s q left c.of_fragment_no (s.current_mtu - type1_size)))
            (left + type2_size)
      some (record {
        message = no_error;
        sender = next_super_frame s;
        memory = written;
        sent = sent ++ (packet ∷ []);
      }))

unfoldable pub fragments_in_place :
    ElasticFrameProtocolSender → Request → ℕ → List ℕ → Option InPlaceSending
fragments_in_place s q start memory =
    let c = cut s.current_mtu (length q.packet) in
    do
      (memory1, sent1) ← type1_in_place s q c c.of_fragment_no_type1 memory start 0
      let after1 = c.of_fragment_no_type1 * c.payload1
      (memory3, sent3) ← type3_in_place s q c memory1 (start + after1)
      if c.type3_needed && not (after1 + c.reminder_data == length q.packet)
          then some (fail_in_place s memory3 sent1)
          else last_in_place s q c
              (if c.type3_needed then c.of_fragment_no_type1 + 1 else c.of_fragment_no_type1) start
              memory3 (if c.type3_needed then after1 + c.reminder_data else after1) (sent1 ++ sent3)

unfoldable pub single_in_place :
    ElasticFrameProtocolSender → Request → ℕ → List ℕ → Option InPlaceSending
single_in_place s q start memory = do
  (written, packet) ←
      emit memory start
        (encode_type2 (stale (drop (start - type2_size) memory))
          (type2_header s q (length q.packet) 0 (length q.packet)))
        (length q.packet + type2_size)
  some (record {
    message = no_error;
    sender = next_super_frame s;
    memory = written;
    sent = packet ∷ [];
  })

-- `headroom` is the memory in front of the packet. The padding of a type 2 header is what was there.
unfoldable pub destructive_pack_and_send_from_ptr :
    ElasticFrameProtocolSender → Request → List ℕ → Option InPlaceSending
destructive_pack_and_send_from_ptr s q headroom =
    let memory = headroom ++ q.packet in
    elim (refusal s q) [
      | some m ↦ some (record { message = m; sender = s; memory = memory; sent = [] })
      | none ↦
          if leb (length q.packet + type2_size) s.current_mtu
          then single_in_place s q (length headroom) memory
          else fragments_in_place s q (length headroom) memory
    ]
