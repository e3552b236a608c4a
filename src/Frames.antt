-- ===== src/Frames.antt =====
-- ElasticFrameProtocol.h, class SuperFrame: the frame that the receiver hands over, its memory, and what
-- a call takes from outside. `none` stands for undefined behaviour.
use efp.Prelude.{
  ℕ, ◌+◌, ◌-◌, Bool, true, Option, none, some, List, length, get_elem?, ltb, leb, if◌then◌else◌,
  ◌&&◌, u32_max, u64_max,
}
use efp.Message.{unknown_content}

-- The memory behind pFrameData. A byte that was not written yet is `none`.
pub record Memory : Type 0 where
  pub capacity : ℕ
  pub byte : ℕ → Option ℕ

-- std::copy_n to `start` of the memory, which must have room.
unfoldable pub write : Memory → ℕ → List ℕ → Option Memory
write m start bytes =
    if leb (start + length bytes) m.capacity
    then some (record m {
      byte = λ i.
          if leb start i && ltb i (start + length bytes)
          then get_elem? bytes (i - start)
          else m.byte i;
    })
    else none

pub record SuperFrame : Type 0 where
  pub frame_size : ℕ
  pub frame_data : Option Memory
  pub data_content : ℕ
  pub broken : Bool
  pub pts : ℕ
  pub dts : ℕ
  pub code : ℕ
  pub stream_id : ℕ
  pub source : ℕ
  pub flags : ℕ
  pub super_frame_no : ℕ

-- What a call takes from outside: the steady clock in microseconds, and whether posix_memalign
-- grants a size.
pub record Env : Type 0 where
  pub now : ℕ
  pub grants : ℕ → Bool

-- The constructor of SuperFrame.
unfoldable pub new_super_frame : Env → ℕ → SuperFrame
new_super_frame env size = record {
  frame_size = if env.grants size then size else 0;
  frame_data =
      if env.grants size then some (record { capacity = size; byte = λ i. none }) else none;
  data_content = unknown_content;
  broken = true;
  pts = u64_max;
  dts = u64_max;
  code = u32_max;
  stream_id = 0;
  source = 0;
  flags = 0;
  super_frame_no = 0;
}
