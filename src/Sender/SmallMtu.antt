-- ===== src/Sender/SmallMtu.antt =====
-- A sender whose constructor was given an MTU below 255: the buffer keeps that size while the MTU is
-- raised to 255.
use efp.Prelude.{
  ℕ, zero, suc, ◌+◌, ◌≤◌, ◌<◌, ◌≡◌, refl, sym, ◌∙◌, ap, arith, true, false, Option, none, some,
  List, ◌++◌, length, take, drop, leb, Option-cases, Bool-cases, inl, inr, length-take, length-drop,
  length-append, bit_or, ◌>>=◌,
}
use efp.Prelude.Bytes.{le_bytes}
use efp.Sender.{
  ElasticFrameProtocolSender, Request, Cut, cut, refusal, new_sender, copy_n, overwrite, flag_bits,
  zeros, start_type1, fill_type1, type1_loop, send_fragments, pack_and_send_from_ptr,
}
use efp.Wire.{type1}
use efp.Sender.Complete.{refusal-fits}
use efp.Sender.Arithmetic.{IsCut, cut-IsCut}

overwrite-length :
    (b : List ℕ) (start : ℕ) (bytes b' : List ℕ)
    → overwrite b start bytes ≡ some b'
    → length b' ≡ length b
unfolding overwrite
overwrite-length b start bytes b' e = elim (Bool-cases (leb (start + length bytes) (length b))) [
  | inl fits ↦
      let same : take start b ++ (bytes ++ drop (start + length bytes) b) ≡ b' =
        ground (arith, e, fits) in
      ap (length {A = ℕ}) (sym same)
      ∙ omega (
        arith,
        inside fits,
        length-append (take start b) (bytes ++ drop (start + length bytes) b),
        length-append bytes (drop (start + length bytes) b),
        length-take start b,
        length-drop (start + length bytes) b,
      )
  | inr over ↦ absurd (ground (arith, e, over))
]
  where
    inside : leb (start + length bytes) (length b) ≡ true → start + length bytes ≤ length b
    inside h = ground arith

copy_n-length :
    (source : List ℕ) (start size : ℕ) (c : List ℕ)
    → copy_n source start size ≡ some c
    → length c ≡ size
unfolding copy_n
copy_n-length source start size c e = elim (Bool-cases (leb (start + size) (length source))) [
  | inl fits ↦
      let same : take size (drop start source) ≡ c = ground (arith, e, fits) in
      let inside : start + size ≤ length source = ground arith in
      ap (length {A = ℕ}) (sym same)
      ∙ omega (arith, inside, length-take size (drop start source), length-drop start source)
  | inr over ↦ absurd (ground (arith, e, over))
]

overwrite_faults :
    (b : List ℕ) (start : ℕ) (bytes : List ℕ)
    → length b < start + length bytes
    → overwrite b start bytes ≡ none
unfolding overwrite
overwrite_faults b start bytes h = ground arith

fill_type1_faults :
    (q : Request) (c : Cut) (b : List ℕ) (i p : ℕ)
    → length b < 8 + c.payload1
    → fill_type1 q c b i p ≡ none
unfolding fill_type1
fill_type1_faults q c b i p h = elim (Option-cases (overwrite b 4 (le_bytes 2 i))) [
  | inl e ↦ rw e
  | inr (b1, e) ↦ elim (Option-cases (copy_n q.packet p c.payload1)) [
    | inl e2 ↦ rw (e, e2)
    | inr (payload, e2) ↦
        rw (e, e2)
          (overwrite_faults b1 8 payload (
            omega (
              arith,
              h,
              overwrite-length b 4 (le_bytes 2 i) b1 e,
              copy_n-length q.packet p c.payload1 payload e2,
            )))
  ]
]

loop_faults :
    (q : Request) (c : Cut) (n : ℕ) (b : List ℕ) (i p : ℕ)
    → length b < 8 + c.payload1
    → type1_loop q c (suc n) b i p ≡ none
unfolding type1_loop
loop_faults q c n b i p h = rw (fill_type1_faults q c b i p h)

start_type1-length :
    (s : ElasticFrameProtocolSender) (q : Request) (c : Cut) (b : List ℕ)
    → start_type1 s q c ≡ some b
    → length b ≡ length s.send_buffer_fixed
unfolding start_type1
start_type1-length s q c b e =
    elim (Option-cases (
      overwrite s.send_buffer_fixed 0 (
        le_bytes 1 (bit_or type1 (flag_bits q))
        ++ (le_bytes 1 q.stream_id ++ le_bytes 2 s.super_frame_no_generator)))) [
          | inl e1 ↦ absurd (ground (arith, e, e1))
          | inr (b1, e1) ↦
              let second : overwrite b1 6 (le_bytes 2 c.of_fragment_no) ≡ some b =
                ap
                  (λ (o : Option (List ℕ)).
                    o >>= (λ x. overwrite x 6 (le_bytes 2 c.of_fragment_no)))
                  (sym e1)
                ∙ e in
              overwrite-length b1 6 (le_bytes 2 c.of_fragment_no) b second
              ∙ overwrite-length s.send_buffer_fixed 0 _ b1 e1
        ]

fragments_fault :
    (s : ElasticFrameProtocolSender) (q : Request) (n : ℕ)
    → length s.send_buffer_fixed < 8 + (cut s.current_mtu (length q.packet)).payload1
    → (cut s.current_mtu (length q.packet)).of_fragment_no_type1 ≡ suc n
    → send_fragments s q ≡ none
unfolding send_fragments
fragments_fault s q n h e =
    let c : Cut = cut s.current_mtu (length q.packet) in
    elim (Option-cases (start_type1 s q c)) [
      | inl e1 ↦ rw e1
      | inr (b, e1) ↦
          let loop : type1_loop q c c.of_fragment_no_type1 b 0 0 ≡ none =
            ap (λ (k : ℕ). type1_loop q c k b 0 0) e
            ∙ loop_faults q c n b 0 0 (omega (arith, h, start_type1-length s q c b e1)) in
          rw (e1, loop)
    ]

zeros-length : (n : ℕ) → length (zeros n) ≡ n
zeros-length zero = refl
zeros-length (suc n) = omega (arith, zeros-length n)

raised : (m : ℕ) → m < 255 → (new_sender m).current_mtu ≡ 255
unfolding new_sender
raised m h = ground arith

small_buffer : (m : ℕ) → length (new_sender m).send_buffer_fixed ≡ m
unfolding new_sender
small_buffer m = zeros-length m

positive : (w : ℕ) → 0 < w → (n : ℕ) × (w ≡ suc n)
positive zero h = absurd (ground (arith, h))
positive (suc n) h = (n, refl)

-- A sender that was made for an MTU below 255 writes behind the end of its buffer whenever a request
-- that no guard refuses has 247 bytes or more, enough for a packet of type 1.
pub small_mtu_faults :
    (set_mtu : ℕ) (q : Request)
    → set_mtu < 255
    → 247 ≤ length q.packet
    → refusal (new_sender set_mtu) q ≡ none
    → pack_and_send_from_ptr (new_sender set_mtu) q ≡ none
unfolding pack_and_send_from_ptr
small_mtu_faults set_mtu q small long passes =
    let s : ElasticFrameProtocolSender = new_sender set_mtu in
    let mtu : s.current_mtu ≡ 255 = raised set_mtu small in
    let many : leb (length q.packet + 32) s.current_mtu ≡ false = ground (arith, mtu) in
    let k : IsCut s.current_mtu (length q.packet) (cut s.current_mtu (length q.packet)) =
      cut-IsCut s.current_mtu (length q.packet) (omega (arith, mtu)) (omega (arith, mtu))
        (refusal-fits s q passes) in
    let (n, e) =
      positive (cut s.current_mtu (length q.packet)).of_fragment_no_type1
        (ground (arith, k.total, k.reminder_small, k.payload1_is, mtu)) in
    rw (passes, pack_and_send_from_ptr, many)
      (fragments_fault s q n (omega (arith, k.payload1_is, mtu, small_buffer set_mtu)) e)
