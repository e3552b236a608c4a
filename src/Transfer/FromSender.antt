-- ===== src/Transfer/FromSender.antt =====
-- The packets that packAndSendFromPtr sends are those of a frame, in the order of their numbers.
use efp.Prelude.{
  ℕ, ◌+◌, ◌-◌, ◌*◌, ◌^◌, ◌≤◌, ◌<◌, ◌≡◌, arith, true, false, none, length, leb, Bool-cases, inl, inr,
  subst, if◌then◌else◌,
}
use efp.Sender.{ElasticFrameProtocolSender, Request, Cut, cut, refusal, pts_dts_diff, size_limit}
use efp.Wire.{stale}
use efp.Sender.Packets.{last_buffer}
use efp.Sender.Arithmetic.{IsCut, cut-IsCut}
use efp.Sender.Complete.{IsSender}
use efp.Transfer.{Frame, IsFrame}

-- The arguments fit their types, and the stream is not 255, for which the receiver has no entry.
pub record IsRequest (q : Request) : Type 0 where
  pub content_fits : q.data_content < 256
  pub pts_fits : q.pts < 2 ^ 64
  pub dts_fits : q.dts < 2 ^ 64
  pub code_fits : q.code < 2 ^ 32
  pub stream_fits : q.stream_id < 255
  pub flags_fit : q.flags < 256

-- The frame of a request, in fragments of `size` bytes.
unfoldable pub frame_in : ElasticFrameProtocolSender → Request → ℕ → Cut → Frame
frame_in s q size c = record {
  content = q.packet;
  number = s.super_frame_no_generator;
  flags = q.flags;
  stream_id = q.stream_id;
  data_content = q.data_content;
  pts = q.pts;
  dts = q.dts;
  code = q.code;
  fragment_size = size;
  whole = c.of_fragment_no_type1;
  tail = c.reminder_data;
  has_type3 = c.type3_needed;
  padding = stale (last_buffer s q c);
}

-- One packet.
unfoldable pub uncut : Request → Cut
uncut q = record {
  payload1 = length q.packet;
  payload2 = length q.packet;
  of_fragment_no_type1 = 0;
  reminder_data = length q.packet;
  type3_needed = false;
  of_fragment_no = 0;
}

unfoldable pub frame_of : ElasticFrameProtocolSender → Request → Frame
frame_of s q =
    if leb (length q.packet + 32) s.current_mtu
    then frame_in s q (length q.packet) (uncut q)
    else frame_in s q (s.current_mtu - 8) (cut s.current_mtu (length q.packet))

-- What the guards rule out.
pub record Passed (s : ElasticFrameProtocolSender) (q : Request) : Type 0 where
  pub pts_free : q.pts < 2 ^ 64 - 1
  pub code_free : q.code < 2 ^ 32 - 1
  pub near : pts_dts_diff q < 2 ^ 32 - 1
  pub size_fits : length q.packet ≤ size_limit s.current_mtu

pub passed :
    (s : ElasticFrameProtocolSender) (q : Request) → IsRequest q → refusal s q ≡ none → Passed s q
unfolding refusal
passed s q k e = record {
  pts_free = ground (arith, k.pts_fits);
  code_free = ground (arith, k.code_fits);
  near = ground arith;
  size_fits = ground arith;
}

-- How the frame's parts must fit together.
record Cuts (size n : ℕ) (c : Cut) : Type 0 where
  total : c.of_fragment_no_type1 * size + c.reminder_data ≡ n
  tail_fits : c.reminder_data ≤ size
  tail_needed : c.type3_needed ≡ true → 0 < c.reminder_data
  small : size < 65536
  counted : c.of_fragment_no_type1 + (if c.type3_needed then 1 else 0) < 65535

frame_in-IsFrame :
    (s : ElasticFrameProtocolSender) (q : Request) (size : ℕ) (c : Cut)
    → IsSender s
    → IsRequest q
    → Passed s q
    → Cuts size (length q.packet) c
    → IsFrame (frame_in s q size c)
unfolding frame_in
frame_in-IsFrame s q size c v k h d = record {
  total = d.total;
  tail_fits = d.tail_fits;
  tail_needed = d.tail_needed;
  fragment_size_fits = d.small;
  count_fits = ground (arith, d.counted);
  number_fits = v.generator_fits;
  flags_fit = k.flags_fit;
  stream_fits = k.stream_fits;
  content_fits = k.content_fits;
  pts_fits = h.pts_free;
  dts_near = h.near;
  dts_fits = k.dts_fits;
  code_fits = h.code_free;
}

uncut-Cuts :
    (q : Request) → length q.packet < 65536 → Cuts (length q.packet) (length q.packet) (uncut q)
unfolding uncut
uncut-Cuts q h = record {
  total = omega arith;
  tail_fits = omega arith;
  tail_needed = λ e. absurd (ground (arith, e));
  small = h;
  counted = omega arith;
}

IsCut-Cuts :
    (mtu size : ℕ) (c : Cut) → 255 ≤ mtu → mtu < 65536 → IsCut mtu size c → Cuts (mtu - 8) size c
IsCut-Cuts mtu size c lo hi k = record {
  total =
      subst (λ (p : ℕ). c.of_fragment_no_type1 * p + c.reminder_data ≡ size) k.payload1_is k.total;
  tail_fits = omega (arith, k.reminder_small, k.payload1_is);
  tail_needed = λ e. ground (arith, k.needed_iff);
  small = omega arith;
  counted = omega (arith, k.count_fits, k.count_is);
}

-- A request in range that is not refused makes a frame in range.
pub frame_of-IsFrame :
    (s : ElasticFrameProtocolSender) (q : Request)
    → IsSender s
    → IsRequest q
    → refusal s q ≡ none
    → IsFrame (frame_of s q)
unfolding frame_of
frame_of-IsFrame s q v k e =
    let h : Passed s q = passed s q k e in
    elim (Bool-cases (leb (length q.packet + 32) s.current_mtu)) [
      | inl small ↦ rw small (
          frame_in-IsFrame s q (length q.packet) (uncut q) v k h
            (uncut-Cuts q (ground (arith, v.mtu_high))))
      | inr large ↦ rw large (
          frame_in-IsFrame s q (s.current_mtu - 8) (cut s.current_mtu (length q.packet)) v k h (
            IsCut-Cuts s.current_mtu (length q.packet) (cut s.current_mtu (length q.packet))
              v.mtu_low v.mtu_high
              (cut-IsCut s.current_mtu (length q.packet) v.mtu_low v.mtu_high h.size_fits)))
    ]
