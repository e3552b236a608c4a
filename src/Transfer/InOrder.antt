-- ===== src/Transfer/InOrder.antt =====
-- The packets of a request stand in the order of the fragments that they carry.
use efp.Prelude.{
  ℕ, zero, suc, ◌+◌, ◌-◌, ◌*◌, ◌%◌, ◌^◌, ◌<◌, ◌≡◌, refl, sym, arith, true, none, some, List, [],
  ◌∷◌, ◌++◌, length, get_elem?, leb, Bool-cases, inl, inr, subst, if_true, if_false,
}
use mathlib.Core.List.{append_assoc}
use efp.Wire.{stale, encode_type1, encode_type2, encode_type3}
use efp.Sender.{
  ElasticFrameProtocolSender, Request, Cut, cut, refusal, pts_dts_diff, type2_header, type3_header,
}
use efp.Sender.Buffer.{type1_header, slice}
use efp.Sender.Packets.{
  packets, type1_packets, type3_packets, last_packet, last_pointer, last_buffer, single_packet,
}
use efp.Sender.Arithmetic.{IsCut, cut-IsCut}
use efp.Sender.Complete.{IsSender}
use efp.Transfer.{
  Frame, IsFragment, full, tail3, last, last_no, last_start, last_size, header1, header2, header3,
}
use efp.Transfer.FromSender.{IsRequest, frame_in, frame_of, uncut, Passed, passed}

-- The packets carry the fragments from `i` on, up to the last one.
pub data InOrder (g : Frame) : ℕ → List (List ℕ × ℕ) → Type 0 where
  finished : InOrder g (suc (last_no g)) []
  then_next :
      {i : ℕ} (packet : List ℕ × ℕ) {rest : List (List ℕ × ℕ)}
      → IsFragment g packet.0 i
      → InOrder g (suc i) rest
      → InOrder g i (packet ∷ rest)

pub InOrder-length :
    (g : Frame) {i : ℕ} {ps : List (List ℕ × ℕ)} → InOrder g i ps → i + length ps ≡ suc (last_no g)
InOrder-length g finished = omega arith
InOrder-length g (then_next packet here rest) = omega (arith, InOrder-length g rest)

pub InOrder-get :
    (g : Frame) {i : ℕ} {ps : List (List ℕ × ℕ)} (k : ℕ) (packet : List ℕ × ℕ)
    → InOrder g i ps
    → get_elem? ps k ≡ some packet
    → IsFragment g packet.0 (i + k)
InOrder-get g k packet finished e = absurd (ground (arith, e))
InOrder-get g {i = i} zero packet (then_next here f rest) e =
    let same : here ≡ packet = ground (arith, e) in
    subst (λ (p : List ℕ × ℕ). IsFragment g p.0 (i + 0)) same
      (subst (λ (n : ℕ). IsFragment g here.0 n) (omega arith) f)
InOrder-get g {i = i} (suc k) packet (then_next here f rest) e =
    subst (λ (n : ℕ). IsFragment g packet.0 n) (omega arith) (InOrder-get g k packet rest e)

-- What the packets are built from agrees with the frame.
record Agrees (s : ElasticFrameProtocolSender) (q : Request) (size : ℕ) (c : Cut) : Type 0 where
  payload1_is : c.payload1 ≡ size
  size_small : size < 65536
  count_is : c.of_fragment_no ≡ last_no (frame_in s q size c)
  rest_small : last_size (frame_in s q size c) < 65536
  near : pts_dts_diff q < 2 ^ 32

module _ (s : ElasticFrameProtocolSender) (q : Request) (size : ℕ) (c : Cut)
    (a : Agrees s q size c) where
  abbrev g : Frame
  g = frame_in s q size c

  header1_is : (i : ℕ) → type1_header s q c i ≡ header1 g i
  unfolding type1_header header1 frame_in
  header1_is i = rw a.count_is

  header3_is : size ≡ s.current_mtu - 8 → type3_header s q c ≡ header3 g
  unfolding type3_header header3 frame_in
  header3_is e =
      let e2 : (s.current_mtu - 8) % 65536 ≡ size = omega (arith, a.size_small, e) in
      rw (e2, a.count_is)

  header2_is : type2_header s q (last_size g) c.of_fragment_no size ≡ header2 g
  unfolding type2_header header2 frame_in
  header2_is =
      let e1 : last_size g % 65536 ≡ last_size g = omega (arith, a.rest_small) in
      let e2 : size % 65536 ≡ size = omega (arith, a.size_small) in
      let e3 : pts_dts_diff q % 2 ^ 32 ≡ pts_dts_diff q = omega (arith, a.near) in
      rw (e1, e2, e3, a.count_is)

  type1_InOrder :
      (rounds i p : ℕ) (rest : List (List ℕ × ℕ))
      → i + rounds ≡ g.whole
      → p ≡ i * size
      → InOrder g g.whole rest
      → InOrder g i (type1_packets s q c rounds i p ++ rest)
  unfolding frame_in
  type1_InOrder zero i p rest e ep tail =
      subst (λ (n : ℕ). InOrder g n rest) (omega (arith, e)) tail
  type1_InOrder (suc rounds) i p rest e ep tail =
      then_next (encode_type1 (type1_header s q c i) ++ slice q.packet p c.payload1, q.stream_id)
        (rw (header1_is i, ep, a.payload1_is) (full i (omega (arith, e))))
        (subst
          (λ (n : ℕ). InOrder g n (type1_packets s q c rounds (i + 1) (p + c.payload1) ++ rest))
          (omega arith)
          (type1_InOrder rounds (i + 1) (p + c.payload1) rest (omega (arith, e))
            (omega (arith, ep, a.payload1_is)) tail))

  last_InOrder :
      (pointer : ℕ)
      → pointer ≡ last_start g
      → InOrder g (last_no g) (
          (
            encode_type2 g.padding
                  (type2_header s q (length q.packet - pointer) c.of_fragment_no size)
                ++ slice q.packet pointer (length q.packet - pointer),
            q.stream_id,
          )
          ∷ [])
  unfolding frame_in
  last_InOrder pointer e =
      let here : IsFragment g
          (encode_type2 g.padding
              (type2_header s q (length q.packet - pointer) c.of_fragment_no size)
            ++ slice q.packet pointer (length q.packet - pointer))
          (last_no g) =
        rw (e, header2_is) last in
      then_next _ here finished

  tail_InOrder :
      c.type3_needed ≡ true
      → size ≡ s.current_mtu - 8
      → (rest : List (List ℕ × ℕ)) → InOrder g (last_no g) rest
      → InOrder g g.whole (
          (
            encode_type3 (type3_header s q c)
                ++ slice q.packet (c.of_fragment_no_type1 * c.payload1) c.reminder_data,
            q.stream_id,
          )
          ∷ rest)
  unfolding frame_in header3 type3_header
  tail_InOrder needed e rest tail =
      let here : IsFragment g
          (encode_type3 (type3_header s q c)
            ++ slice q.packet (c.of_fragment_no_type1 * c.payload1) c.reminder_data)
          g.whole =
        rw (header3_is e, a.payload1_is) (tail3 needed) in
      then_next _ here (subst (λ (n : ℕ). InOrder g n rest) (ground arith) tail)

  middle_InOrder :
      size ≡ s.current_mtu - 8
      → (rest : List (List ℕ × ℕ)) → InOrder g (last_no g) rest
      → InOrder g g.whole (type3_packets s q c ++ rest)
  unfolding frame_in
  middle_InOrder e rest tail = elim (Bool-cases c.type3_needed) [
    | inl needed ↦
        subst (λ (ps : List (List ℕ × ℕ)). InOrder g g.whole (ps ++ rest)) (sym (if_true needed []))
          (tail_InOrder needed e rest tail)
    | inr spared ↦
        subst (λ (ps : List (List ℕ × ℕ)). InOrder g g.whole (ps ++ rest)) (sym (if_false spared _))
          (subst (λ (n : ℕ). InOrder g n rest) (ground arith) tail)
  ]

fragments_InOrder :
    (s : ElasticFrameProtocolSender) (q : Request) (c : Cut)
    → Agrees s q (s.current_mtu - 8) c
    → InOrder (frame_in s q (s.current_mtu - 8) c) 0 (
        (type1_packets s q c c.of_fragment_no_type1 0 0 ++ type3_packets s q c)
        ++ (last_packet (stale (last_buffer s q c)) s q c ∷ []))
unfolding frame_in
fragments_InOrder s q c a =
    let size : ℕ = s.current_mtu - 8 in
    let start : last_pointer c ≡ last_start (frame_in s q size c) = rw a.payload1_is in
    let end = last_InOrder s q size c a (last_pointer c) start in
    rw
      (append_assoc (type1_packets s q c c.of_fragment_no_type1 0 0) (type3_packets s q c)
        (last_packet (stale (last_buffer s q c)) s q c ∷ []))
      (type1_InOrder s q size c a c.of_fragment_no_type1 0 0 _ (omega arith) (omega arith)
        (middle_InOrder s q size c a refl (last_packet (stale (last_buffer s q c)) s q c ∷ []) end))

IsCut-Agrees :
    (s : ElasticFrameProtocolSender) (q : Request) (c : Cut)
    → IsSender s
    → Passed s q
    → IsCut s.current_mtu (length q.packet) c
    → Agrees s q (s.current_mtu - 8) c
unfolding frame_in
IsCut-Agrees s q c v h k = record {
  payload1_is = k.payload1_is;
  size_small = omega (arith, v.mtu_high);
  count_is = ground (arith, k.count_is);
  rest_small = ground (arith, k.total, k.payload1_is, k.reminder_small, v.mtu_high);
  near = omega (arith, h.near);
}

single_InOrder :
    (s : ElasticFrameProtocolSender) (q : Request)
    → Passed s q
    → length q.packet < 65536
    → InOrder
        (frame_in s q (length q.packet) (uncut q))
        0
        (single_packet (stale s.send_buffer_end) s q ∷ [])
unfolding frame_in uncut
single_InOrder s q h small =
    let all : length q.packet - 0 ≡ length q.packet = omega arith in
    subst
      (λ (n : ℕ). InOrder (frame_in s q (length q.packet) (uncut q)) 0 (
        (
          encode_type2 (stale s.send_buffer_end) (type2_header s q n 0 (length q.packet))
              ++ slice q.packet 0 n,
          q.stream_id,
        )
        ∷ []))
      all
      (last_InOrder s q (length q.packet) (uncut q)
        (record {
          payload1_is = refl;
          size_small = small;
          count_is = refl;
          rest_small = omega arith;
          near = omega (arith, h.near);
        })
        0 (omega arith))

-- For a sender in good order and a request in range that no guard refuses: the packets carry the
-- fragments of the request's frame, each one its own, in order from 0 to the last one.
pub packets-InOrder :
    (s : ElasticFrameProtocolSender) (q : Request)
    → IsSender s
    → IsRequest q
    → refusal s q ≡ none
    → InOrder (frame_of s q) 0 (packets s q)
unfolding packets frame_of
packets-InOrder s q v k e =
    let h : Passed s q = passed s q k e in
    elim (Bool-cases (leb (length q.packet + 32) s.current_mtu)) [
      | inl small ↦ rw small (single_InOrder s q h (ground (arith, v.mtu_high)))
      | inr large ↦ rw large (
          fragments_InOrder s q (cut s.current_mtu (length q.packet)) (
            IsCut-Agrees s q (cut s.current_mtu (length q.packet)) v h
              (cut-IsCut s.current_mtu (length q.packet) v.mtu_low v.mtu_high h.size_fits)))
    ]
