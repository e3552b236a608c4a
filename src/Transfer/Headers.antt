-- ===== src/Transfer/Headers.antt =====
-- What the receiver reads from the packets of a frame.
use efp.Prelude.{
  ℕ, ◌+◌, ◌*◌, ◌^◌, ◌≤◌, ◌<◌, ◌≡◌, ap, ◌⊎◌, inl, inr, true, false, Bool-cases, arith, List, ◌++◌,
  length,
}
use native.Mathlib.Nat.{mul-le-mul_right, mul-le-mul}
use efp.Wire.{encode_type1, encode_type2, encode_type3, decode_type1, decode_type2, decode_type3}
use efp.Wire.RoundTrip.{
  decode_type1-encode_type1, decode_type2-encode_type2, decode_type3-encode_type3,
}
use efp.Wire.FrameType.{type1-Splits, type2-Splits, type3-Splits}
use efp.Transfer.{Frame, IsFrame, header1, header2, header3, last_start, last_size, last_no}

-- The last packet, with a type 3 packet in front of it and without one.
pub record AfterTail (g : Frame) : Type 0 where
  pub needed : g.has_type3 ≡ true
  pub number : last_no g ≡ g.whole + 1
  pub place : last_no g * g.fragment_size ≡ g.whole * g.fragment_size + g.fragment_size
  pub start : last_start g ≡ g.whole * g.fragment_size + g.tail
  pub empty : last_size g ≡ 0

pub record HoldsTail (g : Frame) : Type 0 where
  pub spared : g.has_type3 ≡ false
  pub number : last_no g ≡ g.whole
  pub place : last_no g * g.fragment_size ≡ g.whole * g.fragment_size
  pub start : last_start g ≡ g.whole * g.fragment_size
  pub rest : last_size g ≡ g.tail

pub last_cases : (g : Frame) → IsFrame g → AfterTail g ⊎ HoldsTail g
last_cases g v = elim (Bool-cases g.has_type3) [
  | inl needed ↦
      let number : last_no g ≡ g.whole + 1 = ground arith in
      let start : last_start g ≡ g.whole * g.fragment_size + g.tail = ground arith in
      inl (record {
        needed = needed;
        number = number;
        place = omega (arith, ap (λ (t : ℕ). t * g.fragment_size) number);
        start = start;
        empty = omega (arith, v.total);
      })
  | inr spared ↦
      let number : last_no g ≡ g.whole = ground arith in
      let start : last_start g ≡ g.whole * g.fragment_size = ground arith in
      inr (record {
        spared = spared;
        number = number;
        place = ap (λ (t : ℕ). t * g.fragment_size) number;
        start = start;
        rest = omega (arith, v.total);
      })
]

module _ (g : Frame) (v : IsFrame g) where
  -- The last packet's data ends where the frame ends, and is at most one fragment.
  pub last_data : (last_start g + last_size g ≡ length g.content) × (last_size g ≤ g.fragment_size)
  last_data = ground (arith, v.total, v.tail_fits)

  pub decode_header1 :
      (i : ℕ) (rest : List ℕ)
      → i < g.whole
      → decode_type1 (encode_type1 (header1 g i) ++ rest) ≡ header1 g i
  unfolding header1
  decode_header1 i rest h = decode_type1-encode_type1 (header1 g i) rest (record {
    frame_type_fits = (type1-Splits g.flags v.flags_fit).fits;
    stream_fits = omega (arith, v.stream_fits);
    super_frame_no_fits = v.number_fits;
    fragment_no_fits = ground (arith, v.count_fits);
    of_fragment_no_fits = omega (arith, v.count_fits);
  })

  pub decode_header2 :
      (rest : List ℕ) → decode_type2 (encode_type2 g.padding (header2 g) ++ rest) ≡ header2 g
  unfolding header2
  decode_header2 rest = decode_type2-encode_type2 g.padding (header2 g) rest (record {
    frame_type_fits = (type2-Splits g.flags v.flags_fit).fits;
    stream_id_fits = omega (arith, v.stream_fits);
    data_content_fits = v.content_fits;
    size_of_data_fits = omega (arith, last_data.1, v.fragment_size_fits);
    super_frame_no_fits = v.number_fits;
    of_fragment_no_fits = omega (arith, v.count_fits);
    type1_packet_size_fits = v.fragment_size_fits;
    pts_fits = omega (arith, v.pts_fits);
    dts_pts_diff_fits = omega (arith, v.dts_near);
    code_fits = omega (arith, v.code_fits);
  })

  pub decode_header3 : (rest : List ℕ) → decode_type3 (encode_type3 (header3 g) ++ rest) ≡ header3 g
  unfolding header3
  decode_header3 rest = decode_type3-encode_type3 (header3 g) rest (record {
    frame_type_fits = (type3-Splits g.flags v.flags_fit).fits;
    stream_id_fits = omega (arith, v.stream_fits);
    super_frame_no_fits = v.number_fits;
    type1_packet_size_fits = v.fragment_size_fits;
    of_fragment_no_fits = omega (arith, v.count_fits);
  })

  -- A full fragment's data, and the tail's, lie inside the frame.
  pub full_inside : (i : ℕ) → i < g.whole → i * g.fragment_size + g.fragment_size ≤ length g.content
  full_inside i h = grind (arith, v.total, mul-le-mul_right g.fragment_size h)

  -- The frame fits whole + 1 fragments.
  pub content-le : length g.content ≤ g.whole * g.fragment_size + g.fragment_size
  content-le = omega (arith, v.total, v.tail_fits)

  -- No size of the frame comes near the end of size_t.
  pub content_small : length g.content < 2 ^ 33
  content_small = omega (arith, content-le, v.fragment_size_fits, product)
    where
      whole_small : g.whole ≤ 65535
      whole_small = ground (arith, v.count_fits)

      size_small : g.fragment_size ≤ 65535
      size_small = omega (arith, v.fragment_size_fits)

      product : g.whole * g.fragment_size ≤ 65535 * 65535
      product = mul-le-mul whole_small size_small
