-- ===== src/Sender/Equivalence.antt =====
-- destructivePackAndSendFromPtr sends what packAndSendFromPtr sends.
use efp.Prelude.{
  ℕ, ◌+◌, ◌-◌, ◌*◌, ◌≤◌, ◌≡◌, refl, sym, ap, ◌∙◌, arith, none, some, List, [], ◌∷◌, ◌++◌, length,
  drop, leb, if◌then◌else◌, Bool-cases, inl, inr, subst,
}
use efp.Message.{no_error}
use efp.Wire.{Padding, stale, encode_type2}
use efp.Sender.{
  ElasticFrameProtocolSender, Request, Cut, cut, refusal, next_super_frame, type2_header,
  pack_and_send_from_ptr,
}
use efp.Sender.Packets.{
  packets_with, packets-packets_with, type1_packets, type3_packets, last_packet, last_pointer,
  single_packet,
}
use efp.Sender.Arithmetic.{IsCut, cut-IsCut}
use efp.Sender.Complete.{IsSender, pack_and_send-Sends, refusal-fits, Checked, IsCut-Checked}
use efp.Sender.Buffer.{slice}
use efp.Sender.InPlace.{
  emit, type1_in_place, fragments_in_place, single_in_place, destructive_pack_and_send_from_ptr,
}
use efp.Sender.Destructive.{
  Left, step_Left, type1_in_place_lem, type3_in_place_lem, last_in_place_lem, bytes_sent,
  bytes_sent-append, handed_on, length2,
}

at_start : (q : Request) (headroom : List ℕ) → Left q (length headroom) 0 (headroom ++ q.packet)
at_start q headroom = record { front = headroom; memory_is = refl; front_long = omega arith }

single_in_place_lem :
    (s : ElasticFrameProtocolSender) (q : Request) (headroom : List ℕ)
    → 32 ≤ length headroom
    → (padding : Padding) × (last : List ℕ) × (single_in_place s q
          (length headroom)
          (headroom ++ q.packet)
        ≡ handed_on s last ((single_packet padding s q).0 ∷ []))
unfolding single_in_place
single_in_place_lem s q headroom room =
    let header = type2_header s q (length q.packet) 0 (length q.packet) in
    let padding : Padding = stale (drop (length headroom - 32) (headroom ++ q.packet)) in
    let (written, e, next) =
      step_Left q (length headroom) 0 (length q.packet) (length q.packet + 32)
        (headroom ++ q.packet) (encode_type2 padding header) (at_start q headroom)
        (omega (arith, room, length2 padding header)) (omega arith)
        (omega (arith, length2 padding header)) in
    let size : ℕ = length q.packet + 32 in
    let place : length headroom + 0 ≡ length headroom = omega arith in
    let there : emit (headroom ++ q.packet) (length headroom) (encode_type2 padding header) size
        ≡ some (written, encode_type2 padding header ++ slice q.packet 0 (length q.packet)) =
      ap (λ (n : ℕ). emit (headroom ++ q.packet) n (encode_type2 padding header) size) (sym place)
      ∙ e in
    (padding, written, rw there refl)

fragments_in_place_lem :
    (s : ElasticFrameProtocolSender) (q : Request) (headroom : List ℕ)
    → 32 ≤ length headroom
    → IsSender s
    → IsCut s.current_mtu (length q.packet) (cut s.current_mtu (length q.packet))
    → (padding : Padding) × (last : List ℕ) × (fragments_in_place s q
          (length headroom)
          (headroom ++ q.packet)
        ≡ handed_on s last (
            bytes_sent (
              (type1_packets s q
                  (cut s.current_mtu (length q.packet))
                  (cut s.current_mtu (length q.packet)).of_fragment_no_type1
                  0
                  0
                ++ type3_packets s q (cut s.current_mtu (length q.packet)))
              ++ (last_packet padding s q (cut s.current_mtu (length q.packet)) ∷ []))))
unfolding fragments_in_place
fragments_in_place_lem s q headroom room v k =
    let c : Cut = cut s.current_mtu (length q.packet) in
    let start : ℕ = length headroom in
    let h : Checked s q c = IsCut-Checked s q c v k in
    let t1 = type1_packets s q c c.of_fragment_no_type1 0 0 in
    let t3 = type3_packets s q c in
    let (m1, e1, l1) =
      type1_in_place_lem s q c start c.of_fragment_no_type1 (headroom ++ q.packet) 0 0 room
        (omega (arith, k.payload1_is, v.mtu_low)) (at_start q headroom) (omega (arith, k.total)) in
    let zero_place : start + 0 ≡ start = omega arith in
    let l1' : Left q start (c.of_fragment_no_type1 * c.payload1) m1 =
      subst (λ (p : ℕ). Left q start p m1) (omega arith) l1 in
    let (m3, e3, l3) = type3_in_place_lem s q c start m1 room l1' k.total in
    let (padding, m, e) =
      last_in_place_lem s q c start
        (if c.type3_needed then c.of_fragment_no_type1 + 1 else c.of_fragment_no_type1)
        (last_pointer c) m3 (bytes_sent t1 ++ bytes_sent t3) room l3 h.nothing_left h.last_fits
        h.counted h.inside in
    let all : bytes_sent t1 ++ bytes_sent t3 ++ bytes_sent (last_packet padding s q c ∷ [])
        ≡ bytes_sent ((t1 ++ t3) ++ (last_packet padding s q c ∷ [])) =
      ap (λ (l : List (List ℕ)). l ++ bytes_sent (last_packet padding s q c ∷ []))
        (sym (bytes_sent-append t1 t3))
      ∙ sym (bytes_sent-append (t1 ++ t3) (last_packet padding s q c ∷ [])) in
    (
      padding,
      m,
      rw
          (
            ap (λ (p : ℕ). type1_in_place s q c c.of_fragment_no_type1 (headroom ++ q.packet) p 0)
                  (sym zero_place)
                ∙ e1,
            e3,
            h.reached,
            e,
          )
          (ap (handed_on s m) all),
    )

-- A sender in good order, given a request that no guard refuses whose data has 32 bytes or more of
-- memory in front of it: destructivePackAndSendFromPtr touches nothing outside that memory, reports no
-- error and moves to the next number, and it and packAndSendFromPtr both send all packets of the
-- frame, in the same order and byte by byte the same but for the five padding bytes in the header of
-- the last one.
pub destructive_pack_and_send_lem :
    (s : ElasticFrameProtocolSender) (q : Request) (headroom : List ℕ)
    → IsSender s
    → refusal s q ≡ none
    → 32 ≤ length headroom
    → (padding padding2 : Padding) × (memory : List ℕ) × (after : ElasticFrameProtocolSender)
      × (destructive_pack_and_send_from_ptr s q headroom
          ≡ some (record {
            message = no_error;
            sender = next_super_frame s;
            memory = memory;
            sent = bytes_sent (packets_with padding s q);
          }))
      × (pack_and_send_from_ptr s q
          ≡ some (record { message = no_error; sender = after; sent = packets_with padding2 s q }))
unfolding destructive_pack_and_send_from_ptr packets_with
destructive_pack_and_send_lem s q headroom v passes room =
    let (padding2, same) = packets-packets_with s q in
    let x = pack_and_send-Sends s q v passes in
    let copied : pack_and_send_from_ptr s q
        ≡ some (record { message = no_error; sender = x.after; sent = packets_with padding2 s q }) =
      x.result
      ∙ ap
          (λ (l : List (List ℕ × ℕ)).
            some (record { message = no_error; sender = x.after; sent = l }))
          same in
    elim (Bool-cases (leb (length q.packet + 32) s.current_mtu)) [
      | inl small ↦
          let (padding, m, e) = single_in_place_lem s q headroom room in
          (
            padding,
            padding2,
            m,
            x.after,
            rw (passes, destructive_pack_and_send_from_ptr, small, e),
            copied,
          )
      | inr large ↦
          let (padding, m, e) = fragments_in_place_lem s q headroom room v (
            cut-IsCut s.current_mtu (length q.packet) v.mtu_low v.mtu_high
              (refusal-fits s q passes)) in
          (
            padding,
            padding2,
            m,
            x.after,
            rw (passes, destructive_pack_and_send_from_ptr, large, e),
            copied,
          )
    ]
