-- ===== src/Sender/Destructive.antt =====
-- The packets that destructivePackAndSendFromPtr makes, and the memory that it leaves.
use efp.Prelude.{
  ℕ, zero, suc, ◌+◌, ◌-◌, ◌*◌, ◌≤◌, ◌≡◌, refl, sym, ap, ◌∙◌, arith, true, false, not, ◌&&◌, Option,
  some, List, [], ◌∷◌, ◌++◌, length, take, drop, leb, ltb, ◌==◌, Bool-cases, inl, inr, subst,
  length-append, length-take, length-drop, take-append-drop, drop-append_left, if_true, if_false,
}
use mathlib.Core.List.{append_assoc}
use efp.Message.{no_error}
use efp.Wire.{
  Padding, stale, ElasticFrameType2, ElasticFrameType3, encode_type1, encode_type2, encode_type3,
}
use efp.Sender.{
  ElasticFrameProtocolSender, Request, Cut, copy_n, overwrite, next_super_frame, type2_header,
  type3_header,
}
use efp.Sender.Buffer.{type1_header, slice, copy_n-slice, overwrite_fits}
use efp.Sender.Packets.{type1_packets, type3_packets, last_pointer}
use efp.Sender.InPlace.{InPlaceSending, emit, type1_in_place, type3_in_place, last_in_place}

take-append : (xs ys : List ℕ) (n : ℕ) → take (length xs + n) (xs ++ ys) ≡ xs ++ take n ys
take-append [] ys n = ap (λ (k : ℕ). take k ys) (let e : 0 + n ≡ n = omega arith in e)
take-append (x ∷ xs) ys n =
    ap (λ (k : ℕ). take k (x ∷ (xs ++ ys)))
      (let e : suc (length xs) + n ≡ suc (length xs + n) = omega arith in e)
    ∙ ap (λ (l : List ℕ). x ∷ l) (take-append xs ys n)

copy_tail :
    (kept tail : List ℕ) (start size : ℕ)
    → length kept ≡ start
    → size ≤ length tail
    → copy_n (kept ++ tail) start size ≡ some (take size tail)
copy_tail kept tail start size e h =
    copy_n-slice (kept ++ tail) start size (omega (arith, length-append kept tail, e))
    ∙ ap (λ (l : List ℕ). some (take size l))
        (ap (λ (k : ℕ). drop k (kept ++ tail)) (sym e) ∙ drop-append_left kept tail)

-- What a packet leaves: its header in front of the data that was not touched.
emit_lem :
    (memory pre rest header : List ℕ) (end size n : ℕ)
    → memory ≡ pre ++ rest
    → length pre ≡ end
    → length header ≤ end
    → size ≡ length header + n
    → n ≤ length rest
    → (pre' : List ℕ) × (emit memory end header size ≡ some (pre' ++ rest, header ++ take n rest))
      × (length pre' ≡ end)
unfolding emit
emit_lem memory pre rest header end size n e ep fits es small =
    let cutoff : ℕ = end - length header in
    let kept : List ℕ = take cutoff memory in
    let total : length memory ≡ end + length rest =
      ap (length {A = ℕ}) e ∙ omega (arith, length-append pre rest, ep) in
    let long : length kept ≡ cutoff = omega (arith, length-take cutoff memory, total) in
    let back : drop (cutoff + length header) memory ≡ rest =
      ap (λ (k : ℕ). drop k memory)
        (let e2 : cutoff + length header ≡ length pre = omega (arith, ep, fits) in e2)
      ∙ ap (drop (length pre)) e
      ∙ drop-append_left pre rest in
    let placed : overwrite memory cutoff header ≡ some (kept ++ (header ++ rest)) =
      overwrite_fits memory cutoff header (omega (arith, total, fits))
      ∙ ap (λ (l : List ℕ). some (kept ++ (header ++ l))) back in
    let sent : copy_n (kept ++ (header ++ rest)) cutoff size ≡ some (header ++ take n rest) =
      copy_tail kept (header ++ rest) cutoff size long
        (omega (arith, length-append header rest, es, small))
      ∙ ap some (ap (λ (k : ℕ). take k (header ++ rest)) es ∙ take-append header rest n) in
    let room : leb (length header) end ≡ true = ground (arith, fits) in
    (
      kept ++ header,
      rw (room, placed, sent)
          (ap (λ (l : List ℕ). some (l, header ++ take n rest))
            (sym (append_assoc kept header rest))),
      omega (arith, length-append kept header, long, fits),
    )

-- The memory in front of the data that is left, which starts `p` bytes behind pPacket.
pub record Left (q : Request) (start p : ℕ) (memory : List ℕ) : Type 0 where
  pub front : List ℕ
  pub memory_is : memory ≡ front ++ drop p q.packet
  pub front_long : length front ≡ start + p

drop-nil : (n : ℕ) → drop {A = ℕ} n [] ≡ []
drop-nil zero = refl
drop-nil (suc n) = refl

drop-drop : (p n : ℕ) (l : List ℕ) → drop n (drop p l) ≡ drop (p + n) l
drop-drop zero n l = ap (λ (k : ℕ). drop k l) (let e : n ≡ 0 + n = omega arith in e)
drop-drop (suc p) n [] = ap (drop n) (drop-nil (suc p)) ∙ drop-nil n ∙ sym (drop-nil (suc p + n))
drop-drop (suc p) n (x ∷ l) =
    drop-drop p n l
    ∙ ap (λ (k : ℕ). drop k (x ∷ l)) (let e : suc (p + n) ≡ suc p + n = omega arith in e)

-- One packet at a pointer, and the memory behind it.
pub step_Left :
    (q : Request) (start p n size : ℕ) (memory header : List ℕ)
    → Left q start p memory
    → length header ≤ start
    → p + n ≤ length q.packet
    → size ≡ length header + n
    → (written : List ℕ) × (emit memory (start + p) header size
        ≡ some (written, header ++ slice q.packet p n))
      × Left q start (p + n) written
step_Left q start p n size memory header h room inside es =
    let rest : List ℕ = drop p q.packet in
    let (pre, e, long) =
      emit_lem memory h.front rest header (start + p) size n h.memory_is h.front_long
        (omega (arith, room)) es (omega (arith, length-drop p q.packet, inside)) in
    (
      pre ++ rest,
      e,
      record {
        front = pre ++ take n rest;
        memory_is =
            ap (λ (l : List ℕ). pre ++ l) (sym (take-append-drop n rest))
            ∙ sym (append_assoc pre (take n rest) (drop n rest))
            ∙ ap (λ (l : List ℕ). (pre ++ take n rest) ++ l) (drop-drop p n q.packet);
        front_long = omega (
          arith,
          length-append pre (take n rest),
          long,
          length-take n rest,
          length-drop p q.packet,
          inside,
        );
      },
    )

-- The packets without the stream that the send function is told.
abbrev pub bytes_sent : List (List ℕ × ℕ) → List (List ℕ)
bytes_sent [] = []
bytes_sent (p ∷ ps) = p.0 ∷ bytes_sent ps

pub bytes_sent-append :
    (ps rs : List (List ℕ × ℕ)) → bytes_sent (ps ++ rs) ≡ bytes_sent ps ++ bytes_sent rs
bytes_sent-append [] rs = refl
bytes_sent-append (p ∷ ps) rs = ap (λ (l : List (List ℕ)). p.0 ∷ l) (bytes_sent-append ps rs)

length1 :
    (s : ElasticFrameProtocolSender) (q : Request) (c : Cut) (i : ℕ)
    → length (encode_type1 (type1_header s q c i)) ≡ 8
unfolding encode_type1
length1 s q c i = refl

pub type1_in_place_lem :
    (s : ElasticFrameProtocolSender) (q : Request) (c : Cut) (start rounds : ℕ) (memory : List ℕ)
    (i p : ℕ)
    → 32 ≤ start
    → s.current_mtu ≡ 8 + c.payload1
    → Left q start p memory
    → p + rounds * c.payload1 ≤ length q.packet
    → (last : List ℕ) × (type1_in_place s q c rounds memory (start + p) i
        ≡ some (last, bytes_sent (type1_packets s q c rounds i p)))
      × Left q start (p + rounds * c.payload1) last
unfolding type1_in_place
type1_in_place_lem s q c start zero memory i p room size h inside =
    (memory, refl, subst (λ (k : ℕ). Left q start k memory) (omega arith) h)
type1_in_place_lem s q c start (suc rounds) memory i p room size h inside =
    let (written, e, next) =
      step_Left q start p c.payload1 s.current_mtu memory (encode_type1 (type1_header s q c i)) h
        (omega (arith, room, length1 s q c i)) (omega (arith, inside))
        (omega (arith, size, length1 s q c i)) in
    let (last, e', left) =
      type1_in_place_lem s q c start rounds written (i + 1) (p + c.payload1) room size next
        (omega (arith, inside)) in
    let place : start + p + c.payload1 ≡ start + (p + c.payload1) = omega arith in
    (last, rw (e, place, e'), subst (λ (k : ℕ). Left q start k last) (omega arith) left)

pub length2 : (padding : Padding) (h : ElasticFrameType2) → length (encode_type2 padding h) ≡ 32
unfolding encode_type2
length2 padding h = refl

length3 : (h : ElasticFrameType3) → length (encode_type3 h) ≡ 8
unfolding encode_type3
length3 h = refl

pub type3_in_place_lem :
    (s : ElasticFrameProtocolSender) (q : Request) (c : Cut) (start : ℕ) (memory : List ℕ)
    → 32 ≤ start
    → Left q start (c.of_fragment_no_type1 * c.payload1) memory
    → c.of_fragment_no_type1 * c.payload1 + c.reminder_data ≡ length q.packet
    → (last : List ℕ) × (type3_in_place s q c memory (start + c.of_fragment_no_type1 * c.payload1)
        ≡ some (last, bytes_sent (type3_packets s q c)))
      × Left q start (last_pointer c) last
unfolding type3_in_place
type3_in_place_lem s q c start memory room h total = elim (Bool-cases c.type3_needed) [
  | inl needed ↦
      let (written, e, next) =
        step_Left q start (c.of_fragment_no_type1 * c.payload1) c.reminder_data
          (c.reminder_data + 8) memory (encode_type3 (type3_header s q c)) h
          (omega (arith, room, length3 (type3_header s q c))) (omega (arith, total))
          (omega (arith, length3 (type3_header s q c))) in
      let there : last_pointer c ≡ c.of_fragment_no_type1 * c.payload1 + c.reminder_data =
        if_true needed _ in
      let sends : bytes_sent (type3_packets s q c)
          ≡ (encode_type3 (type3_header s q c)
              ++ slice q.packet (c.of_fragment_no_type1 * c.payload1) c.reminder_data)
            ∷ [] =
        ap bytes_sent (if_true needed []) in
      (
        written,
        if_true needed _ ∙ (rw e (ap (λ (l : List (List ℕ)). some (written, l)) (sym sends))),
        subst (λ (k : ℕ). Left q start k written) (sym there) next,
      )
  | inr spared ↦
      let there : last_pointer c ≡ c.of_fragment_no_type1 * c.payload1 = if_false spared _ in
      let sends : bytes_sent (type3_packets s q c) ≡ [] = ap bytes_sent (if_false spared _) in
      (
        memory,
        if_false spared _ ∙ ap (λ (l : List (List ℕ)). some (memory, l)) (sym sends),
        subst (λ (k : ℕ). Left q start k memory) (sym there) h,
      )
]

abbrev pub handed_on : ElasticFrameProtocolSender → List ℕ → List (List ℕ) → Option InPlaceSending
handed_on s memory sent =
    some (record { message = no_error; sender = next_super_frame s; memory = memory; sent = sent })

pub last_in_place_lem :
    (s : ElasticFrameProtocolSender) (q : Request) (c : Cut) (start number pointer : ℕ)
    (memory : List ℕ) (sent : List (List ℕ))
    → 32 ≤ start
    → Left q start pointer memory
    → c.type3_needed && not (length q.packet - pointer == 0) ≡ false
    → length q.packet - pointer + 32 ≤ s.current_mtu
    → c.of_fragment_no ≡ number
    → pointer ≤ length q.packet
    → (padding : Padding) × (last : List ℕ) × (last_in_place s q c number start memory pointer sent
        ≡ handed_on s last (
            sent
            ++ ((encode_type2 padding (
                    type2_header s q
                      (length q.packet - pointer)
                      c.of_fragment_no
                      (s.current_mtu - 8))
                  ++ slice q.packet pointer (length q.packet - pointer))
                ∷ [])))
unfolding last_in_place
last_in_place_lem s q c start number pointer memory sent room h e1 small e2 inside =
    let left : ℕ = length q.packet - pointer in
    let header = type2_header s q left c.of_fragment_no (s.current_mtu - 8) in
    let padding : Padding = stale (drop (start + pointer - 32) memory) in
    let e3 : ltb s.current_mtu (length q.packet - pointer + 32) ≡ false = ground (arith, small) in
    let e4 : not (c.of_fragment_no == number) ≡ false = ground (arith, e2) in
    let (written, e, next) =
      step_Left q start pointer left (left + 32) memory (encode_type2 padding header) h
        (omega (arith, room, length2 padding header)) (omega (arith, inside))
        (omega (arith, length2 padding header)) in
    (padding, written, rw (e1, e3, e4, e))
