-- ===== src/Sender/Buffer.antt =====
-- Copies and writes that stay inside their buffers, and the type 1 packet that they build.
use efp.Prelude.{
  ℕ, suc, ◌+◌, ◌/◌, ◌%◌, ◌≤◌, ◌≡◌, refl, ◌∙◌, bit_or, some, List, [], ◌∷◌, ◌++◌, arith, length,
  take, drop, length-take, length-drop, drop-length,
}
use efp.Prelude.Bytes.{le_bytes}
use mathlib.Core.List.{append-nil}
use efp.Wire.{ElasticFrameType1, encode_type1, type1}
use efp.Sender.{
  ElasticFrameProtocolSender, Request, Cut, copy_n, overwrite, flag_bits, start_type1, fill_type1,
}

-- The bytes that copy_n delivers.
abbrev pub slice : List ℕ → ℕ → ℕ → List ℕ
slice source start size = take size (drop start source)

pub length-slice :
    (source : List ℕ) (start size : ℕ)
    → start + size ≤ length source
    → length (slice source start size) ≡ size
length-slice source start size h =
    omega (arith, length-take size (drop start source), length-drop start source)

pub copy_n-slice :
    (source : List ℕ) (start size : ℕ)
    → start + size ≤ length source
    → copy_n source start size ≡ some (slice source start size)
unfolding copy_n
copy_n-slice source start size h = ground arith

pub overwrite_fits :
    (buffer : List ℕ) (start : ℕ) (bytes : List ℕ)
    → start + length bytes ≤ length buffer
    → overwrite buffer start bytes
      ≡ some (take start buffer ++ (bytes ++ drop (start + length bytes) buffer))
unfolding overwrite
overwrite_fits buffer start bytes h = ground arith

unfoldable pub type1_header : ElasticFrameProtocolSender → Request → Cut → ℕ → ElasticFrameType1
type1_header s q c i = record {
  frame_type = bit_or type1 (flag_bits q);
  stream = q.stream_id;
  super_frame_no = s.super_frame_no_generator;
  fragment_no = i;
  of_fragment_no = c.of_fragment_no;
}

-- The bytes of a type 1 packet with any two bytes in place of the fragment number.
numbered : ElasticFrameProtocolSender → Request → Cut → ℕ → ℕ → List ℕ → List ℕ
unfolding le_bytes
numbered s q c x y rest =
    le_bytes 1 (bit_or type1 (flag_bits q))
    ++ (le_bytes 1 q.stream_id
        ++ (le_bytes 2 s.super_frame_no_generator
            ++ (x ∷ y ∷ (le_bytes 2 c.of_fragment_no ++ rest))))

-- The buffer has the fixed fields, some fragment number, and room for one payload.
pub record IsReady (s : ElasticFrameProtocolSender) (q : Request) (c : Cut) (b : List ℕ)
    : Type 0 where
  low : ℕ
  high : ℕ
  rest : List ℕ
  content : b ≡ numbered s q c low high rest
  room : length rest ≡ c.payload1

eight : (n : ℕ) → 8 + n ≡ suc (suc (suc (suc (suc (suc (suc (suc n)))))))
eight n = omega arith

-- Eight header bytes, and a payload that fills the rest.
overwrite_payload :
    (h : ElasticFrameType1) (rest payload : List ℕ)
    → length payload ≡ length rest
    → overwrite (encode_type1 h ++ rest) 8 payload ≡ some (encode_type1 h ++ payload)
unfolding encode_type1
overwrite_payload h rest payload e =
    overwrite_fits (encode_type1 h ++ rest) 8 payload (omega arith)
    ∙ rw (
      eight (length payload),
      drop-length (length payload) rest (omega arith),
      append-nil payload,
    )

overwrite_number :
    (s : ElasticFrameProtocolSender) (q : Request) (c : Cut) (x y i : ℕ) (rest : List ℕ)
    → overwrite (numbered s q c x y rest) 4 (le_bytes 2 i)
      ≡ some (encode_type1 (type1_header s q c i) ++ rest)
unfolding encode_type1 type1_header numbered
overwrite_number s q c x y i rest =
    overwrite_fits (numbered s q c x y rest) 4 (le_bytes 2 i) (omega arith)

-- One round of the loop builds the packet of its fragment.
pub fill_type1_lem :
    (s : ElasticFrameProtocolSender) (q : Request) (c : Cut) (b : List ℕ) (i p : ℕ)
    → IsReady s q c b
    → p + c.payload1 ≤ length q.packet
    → fill_type1 q c b i p
      ≡ some (encode_type1 (type1_header s q c i) ++ slice q.packet p c.payload1)
unfolding fill_type1
fill_type1_lem s q c b i p r h =
    rw
      (
        r.content,
        overwrite_number s q c r.low r.high i r.rest,
        copy_n-slice q.packet p c.payload1 h,
      )
      (overwrite_payload (type1_header s q c i) r.rest (slice q.packet p c.payload1)
        (omega (arith, length-slice q.packet p c.payload1 h, r.room)))

pub filled-IsReady :
    (s : ElasticFrameProtocolSender) (q : Request) (c : Cut) (i : ℕ) (payload : List ℕ)
    → length payload ≡ c.payload1
    → IsReady s q c (encode_type1 (type1_header s q c i) ++ payload)
unfolding encode_type1 type1_header numbered
filled-IsReady s q c i payload e = record {
  low = i % 256;
  high = i / 256 % 256;
  rest = payload;
  content = refl;
  room = e;
}

start_of_eight :
    (s : ElasticFrameProtocolSender) (q : Request) (c : Cut) (b : List ℕ)
    → length b ≡ 8 + c.payload1
    → b ≡ s.send_buffer_fixed
    → (b' : List ℕ) × (start_type1 s q c ≡ some b') × IsReady s q c b'
unfolding start_type1 numbered
start_of_eight s q c (x0 ∷ x1 ∷ x2 ∷ x3 ∷ x4 ∷ x5 ∷ x6 ∷ x7 ∷ rest) h e = (
  numbered s q c x4 x5 rest,
  rw (← e) (
      rw
        (overwrite_fits (x0 ∷ x1 ∷ x2 ∷ x3 ∷ x4 ∷ x5 ∷ x6 ∷ x7 ∷ rest) 0
          (le_bytes 1 (bit_or type1 (flag_bits q))
            ++ (le_bytes 1 q.stream_id ++ le_bytes 2 s.super_frame_no_generator))
          (omega arith))
        (overwrite_fits
          (le_bytes 1 (bit_or type1 (flag_bits q))
            ++ (le_bytes 1 q.stream_id
                ++ (le_bytes 2 s.super_frame_no_generator ++ (x4 ∷ x5 ∷ x6 ∷ x7 ∷ rest))))
          6 (le_bytes 2 c.of_fragment_no) (omega arith))),
  record { low = x4; high = x5; rest = rest; content = refl; room = omega arith },
)
start_of_eight s q c [] h e = absurd (omega arith)
start_of_eight s q c (_ ∷ []) h e = absurd (omega arith)
start_of_eight s q c (_ ∷ _ ∷ []) h e = absurd (omega arith)
start_of_eight s q c (_ ∷ _ ∷ _ ∷ []) h e = absurd (omega arith)
start_of_eight s q c (_ ∷ _ ∷ _ ∷ _ ∷ []) h e = absurd (omega arith)
start_of_eight s q c (_ ∷ _ ∷ _ ∷ _ ∷ _ ∷ []) h e = absurd (omega arith)
start_of_eight s q c (_ ∷ _ ∷ _ ∷ _ ∷ _ ∷ _ ∷ []) h e = absurd (omega arith)
start_of_eight s q c (_ ∷ _ ∷ _ ∷ _ ∷ _ ∷ _ ∷ _ ∷ []) h e = absurd (omega arith)

-- The buffer of a sender with a full buffer is ready for the first packet.
pub start_type1_lem :
    (s : ElasticFrameProtocolSender) (q : Request) (c : Cut)
    → length s.send_buffer_fixed ≡ 8 + c.payload1
    → (b : List ℕ) × (start_type1 s q c ≡ some b) × IsReady s q c b
start_type1_lem s q c h = start_of_eight s q c s.send_buffer_fixed h refl

pub IsReady-length :
    (s : ElasticFrameProtocolSender) (q : Request) (c : Cut) (b : List ℕ)
    → IsReady s q c b
    → length b ≡ 8 + c.payload1
unfolding numbered
IsReady-length s q c b r = rw r.content (omega (arith, r.room))
