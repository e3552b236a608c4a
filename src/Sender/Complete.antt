-- ===== src/Sender/Complete.antt =====
-- packAndSendFromPtr as a whole: what a sender in good order sends, and that it stays so.
use efp.Prelude.{
  ℕ, ◌+◌, ◌-◌, ◌*◌, ◌%◌, ◌≤◌, ◌<◌, ◌≡◌, refl, Option, none, some, List, [], ◌∷◌, ◌++◌, arith,
  length, leb, ltb, ◌==◌, not, ◌&&◌, if◌then◌else◌, Bool-cases, inl, inr, true, false,
}
use efp.Message.{no_error}
use efp.Sender.{
  ElasticFrameProtocolSender, Request, Sending, Cut, cut, refusal, size_limit, send_single,
  send_fragments, send_type3, send_last, next_super_frame, pack_and_send_from_ptr, type2_header,
  type3_header,
}
use efp.Sender.Buffer.{slice, copy_n-slice, start_type1_lem, IsReady-length}
use efp.Sender.Packets.{
  packets, type1_packets, type1_loop_lem, type3_packets, last_pointer, last_buffer, single_packet,
}
use efp.Wire.{Padding, stale, encode_type2}
use efp.Sender.Arithmetic.{IsCut, cut-IsCut}

-- What the constructor sets up for an MTU of 255 or more.
pub record IsSender (s : ElasticFrameProtocolSender) : Type 0 where
  pub mtu_low : 255 ≤ s.current_mtu
  pub mtu_high : s.current_mtu < 65536
  pub buffer_full : length s.send_buffer_fixed ≡ s.current_mtu
  pub generator_fits : s.super_frame_no_generator < 65536

pub refusal-fits :
    (s : ElasticFrameProtocolSender) (q : Request)
    → refusal s q ≡ none
    → length q.packet ≤ size_limit s.current_mtu
unfolding refusal
refusal-fits s q e = ground arith

-- What a call that is not refused does: it sends all the packets, and moves to the next number.
pub record Sends (s : ElasticFrameProtocolSender) (q : Request) (r : Option Sending) : Type 0 where
  pub after : ElasticFrameProtocolSender
  pub result : r ≡ some (record { message = no_error; sender = after; sent = packets s q })
  pub number : after.super_frame_no_generator ≡ (s.super_frame_no_generator + 1) % 65536
  pub same_mtu : after.current_mtu ≡ s.current_mtu
  pub after-IsSender : IsSender after

single-Sends :
    (s : ElasticFrameProtocolSender) (q : Request)
    → IsSender s
    → leb (length q.packet + 32) s.current_mtu ≡ true
    → Sends s q (send_single s q)
unfolding send_single packets next_super_frame
single-Sends s q v e = record {
  after =
      next_super_frame
        (record s { send_buffer_end = (single_packet (stale s.send_buffer_end) s q).0 });
  result = rw (copy_n-slice q.packet 0 (length q.packet) (omega arith), e);
  number = refl;
  same_mtu = refl;
  after-IsSender = ground arith;
}

-- The packet that stands last, by the fragment number and the data pointer that the loop left.
abbrev closing : Padding → ElasticFrameProtocolSender → Request → Cut → ℕ → List ℕ × ℕ
closing padding s q c pointer =
    let left = length q.packet - pointer in
    (
      encode_type2 padding (type2_header s q left c.of_fragment_no (s.current_mtu - 8))
          ++ slice q.packet pointer left,
      q.stream_id,
    )

abbrev closed : ElasticFrameProtocolSender → Request → Cut → ℕ → List (List ℕ × ℕ) → Option Sending
closed s q c pointer sent = some (record {
  message = no_error;
  sender =
      next_super_frame
        (record s { send_buffer_end = (closing (stale s.send_buffer_end) s q c pointer).0 });
  sent = sent ++ (closing (stale s.send_buffer_end) s q c pointer ∷ []);
})

-- None of the checks for calculation errors fires.
send_last_passes :
    (s : ElasticFrameProtocolSender) (q : Request) (c : Cut) (number pointer : ℕ)
    (sent : List (List ℕ × ℕ))
    → c.type3_needed && not (length q.packet - pointer == 0) ≡ false
    → length q.packet - pointer + 32 ≤ s.current_mtu
    → c.of_fragment_no ≡ number
    → pointer ≤ length q.packet
    → send_last s q c number pointer sent ≡ closed s q c pointer sent
unfolding send_last
send_last_passes s q c number pointer sent e1 h e2 hp =
    let e3 : ltb s.current_mtu (length q.packet - pointer + 32) ≡ false = ground arith in
    let e4 : not (c.of_fragment_no == number) ≡ false = ground arith in
    rw (e1, e3, e4, copy_n-slice q.packet pointer (length q.packet - pointer) (omega arith))

send_type3_lem :
    (s : ElasticFrameProtocolSender) (q : Request) (c : Cut)
    → c.of_fragment_no_type1 * c.payload1 + c.reminder_data ≡ length q.packet
    → send_type3 s q c (c.of_fragment_no_type1 * c.payload1)
      ≡ some (record s { send_buffer_end = last_buffer s q c }, type3_packets s q c)
unfolding send_type3 type3_header
send_type3_lem s q c e = elim (Bool-cases c.type3_needed) [
  | inl needed ↦ rw (
    needed,
    copy_n-slice q.packet (c.of_fragment_no_type1 * c.payload1) c.reminder_data (omega arith),
  )
  | inr spared ↦ rw spared
]

-- The numbers at the end of the loop satisfy all the checks.
pub record Checked (s : ElasticFrameProtocolSender) (q : Request) (c : Cut) : Type 0 where
  pub reached :
      c.type3_needed
        && not (c.of_fragment_no_type1 * c.payload1 + c.reminder_data == length q.packet)
      ≡ false
  pub nothing_left : c.type3_needed && not (length q.packet - last_pointer c == 0) ≡ false
  pub last_fits : length q.packet - last_pointer c + 32 ≤ s.current_mtu
  pub counted :
      c.of_fragment_no
      ≡ (if c.type3_needed then c.of_fragment_no_type1 + 1 else c.of_fragment_no_type1)
  pub inside : last_pointer c ≤ length q.packet

pub IsCut-Checked :
    (s : ElasticFrameProtocolSender) (q : Request) (c : Cut)
    → IsSender s
    → IsCut s.current_mtu (length q.packet) c
    → Checked s q c
IsCut-Checked s q c v k = record {
  reached = ground arith;
  nothing_left = ground arith;
  last_fits = ground arith;
  counted = ground arith;
  inside = ground arith;
}

fragments-Sends :
    (s : ElasticFrameProtocolSender) (q : Request)
    → IsSender s
    → IsCut s.current_mtu (length q.packet) (cut s.current_mtu (length q.packet))
    → leb (length q.packet + 32) s.current_mtu ≡ false
    → Sends s q (send_fragments s q)
unfolding send_fragments packets next_super_frame type3_header type2_header
fragments-Sends s q v k e =
    let c : Cut = cut s.current_mtu (length q.packet) in
    let h : Checked s q c = IsCut-Checked s q c v k in
    let (b, eb, rb) =
      start_type1_lem s q c (omega (arith, v.buffer_full, k.payload1_is, v.mtu_low)) in
    let (last, el, rl) =
      type1_loop_lem s q c c.of_fragment_no_type1 b 0 0 rb (omega (arith, k.total)) in
    let s1 : ElasticFrameProtocolSender = record s { send_buffer_fixed = last } in
    let et = send_type3_lem s1 q c k.total in
    let s3 : ElasticFrameProtocolSender = record s1 { send_buffer_end = last_buffer s1 q c } in
    let number = (if c.type3_needed then c.of_fragment_no_type1 + 1 else c.of_fragment_no_type1) in
    let sent = type1_packets s q c c.of_fragment_no_type1 0 0 ++ type3_packets s q c in
    record {
      after = next_super_frame (record s3 {
        send_buffer_end = (closing (stale (last_buffer s q c)) s q c (last_pointer c)).0;
      });
      result =
          rw (e, eb, el, et, h.reached)
            (send_last_passes s3 q c number (last_pointer c) sent h.nothing_left h.last_fits
              h.counted h.inside);
      number = refl;
      same_mtu = refl;
      after-IsSender = record {
        mtu_low = v.mtu_low;
        mtu_high = v.mtu_high;
        buffer_full = omega (arith, IsReady-length s q c last rl, k.payload1_is, v.mtu_low);
        generator_fits = omega arith;
      };
    }

-- A sender in good order never reads or writes outside its buffers and never meets a calculation
-- error: a request that none of the guards refuses is sent as all of `packets`, with no error, and
-- the sender that is left is in good order, at the next super frame number.
pub pack_and_send-Sends :
    (s : ElasticFrameProtocolSender) (q : Request)
    → IsSender s
    → refusal s q ≡ none
    → Sends s q (pack_and_send_from_ptr s q)
unfolding pack_and_send_from_ptr
pack_and_send-Sends s q v e = elim (Bool-cases (leb (length q.packet + 32) s.current_mtu)) [
  | inl small ↦ rw (e, pack_and_send_from_ptr, small) (single-Sends s q v small)
  | inr large ↦
      rw (e, pack_and_send_from_ptr, large)
        (fragments-Sends s q v
          (cut-IsCut s.current_mtu (length q.packet) v.mtu_low v.mtu_high (refusal-fits s q e))
          large)
]
