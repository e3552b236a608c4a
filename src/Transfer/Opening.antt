-- ===== src/Transfer/Opening.antt =====
-- The first half of each handler: the first packet of a frame claims a bucket.
use efp.Prelude.{
  ℕ, suc, ◌≤◌, ◌≡◌, sym, ap, ◌∙◌, arith, bit_and, Bool, true, false, Option, some, none, u64_max,
  length, get_elem?, update, ◌==◌, subst, insert,
}
use efp.Message.{ElasticFrameMessages, no_error}
use efp.Receiver.{
  ElasticFrameProtocolReceiver, Bucket, Stream, none_received, lacks_memory, enter_bucket, deadline,
}
use efp.Frames.{SuperFrame, Memory, Env, new_super_frame}
use efp.Transfer.{Frame, IsFrame, InRegion, last_no, part}
use efp.Transfer.Count.{count-first, update_self}
use efp.Transfer.Memory.{Writes}
use efp.Transfer.Collected.{Collected, Stamped}
use efp.Transfer.Adding.{store_payload_lem, Labels}
use efp.Receiver.{store_payload}

-- posix_memalign grants every size that is asked for.
pub record Grants (env : Env) : Type 0 where
  pub every : (size : ℕ) → env.grants size ≡ true

abbrev pub first : ℕ → ℕ → Bool
first i = update none_received i true

first_only : (i j : ℕ) → first i j ≡ true → i ≡ j
first_only i j e = ground arith

unfoldable pub fresh_memory : ℕ → Memory
fresh_memory size = record { capacity = size; byte = λ x. none }

-- What a handler does with fragment `i` of the frame, when it claims a bucket for it.
pub record Opens (g : Frame) (r : ElasticFrameProtocolReceiver) (at order i : ℕ)
    (res : Option (ElasticFrameMessages × ElasticFrameProtocolReceiver)) : Type 0 where
  pub streams : ℕ → Stream
  pub buckets : ℕ → Bucket
  pub result :
      res
      ≡ some (
        no_error,
        record r {
          streams = streams;
          bucket_map = insert order at r.bucket_map;
          bucket_list = buckets;
        },
      )
  pub collected : Collected g (buckets at)
  pub received_is : (buckets at).have_received_fragment ≡ first i
  pub order_is : (buckets at).delivery_order ≡ order
  pub others : (j : ℕ) → (at == j) ≡ false → buckets j ≡ r.bucket_list j

module _ (g : Frame) (v : IsFrame g) where
  -- A bucket that holds one fragment.
  pub Collected-first :
      (i : ℕ) (b : Bucket) (frame : SuperFrame) (m : Memory)
      → i ≤ last_no g
      → b.bucket_data ≡ some frame
      → frame.frame_data ≡ some m
      → b.active ≡ true
      → b.saved_super_frame_no ≡ g.number
      → b.of_fragment_no ≡ last_no g
      → b.fragment_size ≡ g.fragment_size
      → b.flags ≡ bit_and g.flags 0xf0
      → b.stream ≡ g.stream_id
      → b.fragment_counter ≡ 0
      → b.have_received_fragment ≡ first i
      → length g.content ≤ m.capacity
      → ((x : ℕ) → InRegion g i x → m.byte x ≡ get_elem? g.content x)
      → (i ≡ g.whole → frame.frame_size ≡ length g.content)
      → (g.tail ≡ 0 → frame.frame_size ≡ length g.content)
      → (i ≡ last_no g → Stamped g b)
      → Collected g b
  Collected-first i b frame m small e1 e2 ea en el ef eg es ec er room own sized even stamped =
      record {
        frame = frame;
        memory = m;
        data_is = e1;
        memory_is = e2;
        active_is = ea;
        number_is = en;
        last_is = el;
        fragment_size_is = ef;
        flags_is = eg;
        stream_is = es;
        counted = rw (ec, er) (sym (count-first (suc (last_no g)) i (omega arith)));
        room = room;
        bytes = λ j x e region.
            own x (subst (λ t. InRegion g t x) (sym (first_only i j (rw er at e))) region);
        sized = λ e. sized (first_only i g.whole (rw er at e));
        sized_even = even;
        stamped = λ e. stamped (first_only i (last_no g) (rw er at e));
      }

-- The bucket `b1` is entered, and its data written to memory that is there.
pub store-Opens :
    (g : Frame) (r : ElasticFrameProtocolReceiver) (at order i : ℕ) (streams : ℕ → Stream)
    (b1 : Bucket) (frame : SuperFrame) (m : Memory) (start size : ℕ)
    → b1.bucket_data ≡ some frame
    → frame.frame_data ≡ some m
    → (w : Writes m g.content start size) → b1.delivery_order ≡ order
    → b1.have_received_fragment ≡ first i
    → Collected g (record b1 { bucket_data = some (record frame { frame_data = some w.after }) })
    → Opens g r at order i (
        store_payload
          (enter_bucket (record r { streams = streams }) at b1)
          at
          b1
          start
          (part g start size))
unfolding enter_bucket
store-Opens g r at order i streams b1 frame m start size e1 e2 w eo er col =
    let after : Bucket = record b1 {
      bucket_data = some (record frame { frame_data = some w.after });
    } in
    let list : ℕ → Bucket = update r.bucket_list at b1 in
    let here : update list at after at ≡ after = update_self list at after in
    record {
      streams = streams;
      buckets = update list at after;
      result = rw (← eo) (
          store_payload_lem (enter_bucket (record r { streams = streams }) at b1) at b1 g start size
            frame m e1 e2 w);
      collected = subst (λ c. Collected g c) (sym here) col;
      received_is = ap (λ (c : Bucket). c.have_received_fragment) here ∙ er;
      order_is = ap (λ (c : Bucket). c.delivery_order) here ∙ eo;
      others = λ j e. rw e;
    }

-- The frame that the constructor makes when memory is granted.
abbrev pub granted_frame : Env → ℕ → SuperFrame
granted_frame env size = record (new_super_frame env size) {
  frame_size = size;
  frame_data = some (fresh_memory size);
}

pub new_super_frame_lem :
    (env : Env) (size : ℕ) → Grants env → new_super_frame env size ≡ granted_frame env size
unfolding new_super_frame fresh_memory
new_super_frame_lem env size grants = rw (grants.every size)

pub has_memory :
    (b : Bucket) (frame : SuperFrame) (m : Memory)
    → b.bucket_data ≡ some frame
    → frame.frame_data ≡ some m
    → lacks_memory b ≡ false
unfolding lacks_memory
has_memory b frame m e1 e2 = rw (e1, e2)

-- A bucket that a first packet has claimed, before its data is written.
abbrev pub claimed :
    Env
    → ElasticFrameProtocolReceiver
    → Frame
    → ℕ
    → ℕ
    → Bucket
    → ℕ
    → ℕ
    → Labels
    → SuperFrame
    → Bucket
claimed env r g source order b i frame_type l frame = record b {
  delivery_order = order;
  active = true;
  source = source;
  flags = bit_and frame_type 0xf0;
  stream = g.stream_id;
  data_content = l.data_content;
  code = l.code;
  saved_super_frame_no = g.number;
  have_received_fragment = first i;
  pts = l.pts;
  dts = l.dts;
  timeout = deadline env r;
  fragment_counter = 0;
  of_fragment_no = last_no g;
  fragment_size = g.fragment_size;
  bucket_data = some frame;
}

-- The labels of a bucket before the last packet has come.
abbrev pub early_labels : Frame → Stream → Labels
early_labels g s = record {
  pts = u64_max;
  dts = u64_max;
  code = s.code;
  data_content = s.data_content;
  flags = 0;
  stream = g.stream_id;
}
