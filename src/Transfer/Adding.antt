-- ===== src/Transfer/Adding.antt =====
-- One more fragment in a bucket that collects a frame.
use efp.Prelude.{
  ℕ, suc, ◌+◌, ◌%◌, ◌≤◌, ◌≡◌, refl, sym, arith, Bool, true, false, some, length, get_elem?, bit_and,
  update, ◌==◌, ==_iff, subst, Bool-cases, inl, inr,
}
use efp.Message.{no_error}
use efp.Receiver.{ElasticFrameProtocolReceiver, Bucket, store_payload, set_bucket}
use efp.Frames.{SuperFrame, Memory}
use efp.Transfer.{Frame, IsFrame, InRegion, last_no, part}
use efp.Transfer.Count.{count, count-le, count-update}
use efp.Transfer.Memory.{Writes}
use efp.Transfer.Collected.{Collected, Stamped}

-- Data written into the memory of the bucket's frame.
pub store_payload_lem :
    (r : ElasticFrameProtocolReceiver) (k : ℕ) (b : Bucket) (g : Frame) (start size : ℕ)
    (frame : SuperFrame) (memory : Memory)
    → b.bucket_data ≡ some frame
    → frame.frame_data ≡ some memory
    → (w : Writes memory g.content start size)
    → store_payload r k b start (part g start size)
      ≡ some (
        no_error,
        set_bucket r k
            (record b { bucket_data = some (record frame { frame_data = some w.after }) }),
      )
unfolding store_payload
store_payload_lem r k b g start size frame memory e1 e2 w = rw (e1, e2, w.result)

-- The time stamps and labels of a bucket.
pub record Labels : Type 0 where
  pub pts : ℕ
  pub dts : ℕ
  pub code : ℕ
  pub data_content : ℕ
  pub flags : ℕ
  pub stream : ℕ

abbrev pub labels : Bucket → Labels
labels b = record {
  pts = b.pts;
  dts = b.dts;
  code = b.code;
  data_content = b.data_content;
  flags = b.flags;
  stream = b.stream;
}

-- The bucket with one more fragment, its labels and its frame.
abbrev pub added : Bucket → Labels → ℕ → SuperFrame → Bucket
added b l i frame = record b {
  pts = l.pts;
  dts = l.dts;
  code = l.code;
  data_content = l.data_content;
  flags = l.flags;
  stream = l.stream;
  have_received_fragment = update b.have_received_fragment i true;
  fragment_counter = (b.fragment_counter + 1) % 65536;
  bucket_data = some frame;
}

pub restamp :
    {g : Frame} {b : Bucket}
    → Stamped g b
    → (i : ℕ) (frame : SuperFrame) → Stamped g (added b (labels b) i frame)
restamp s i frame = record {
  pts_is = s.pts_is;
  dts_is = s.dts_is;
  code_is = s.code_is;
  content_is = s.content_is;
}

module _ (g : Frame) (v : IsFrame g) {b : Bucket} (k : Collected g b) (l : Labels) (i : ℕ)
    (small : i ≤ last_no g) (new : b.have_received_fragment i ≡ false) where
  abbrev received : ℕ → Bool
  received = update b.have_received_fragment i true

  pub counted_more : suc ((b.fragment_counter + 1) % 65536) ≡ count received (suc (last_no g))
  counted_more = omega (
    arith,
    k.counted,
    count-update b.have_received_fragment (suc (last_no g)) i (omega arith) new,
    count-le received (suc (last_no g)),
    v.count_fits,
  )

  pub Collected-added :
      (m : Memory) (size : ℕ)
      → m.capacity ≡ k.memory.capacity
      → ((x : ℕ) → k.memory.byte x ≡ get_elem? g.content x → m.byte x ≡ get_elem? g.content x)
      → ((x : ℕ) → InRegion g i x → m.byte x ≡ get_elem? g.content x)
      → (received g.whole ≡ true → size ≡ length g.content)
      → (g.tail ≡ 0 → size ≡ length g.content)
      → l.flags ≡ bit_and g.flags 0xf0
      → l.stream ≡ g.stream_id
      → (received (last_no g) ≡ true
          → Stamped g (added b l i (record k.frame { frame_size = size; frame_data = some m })))
      → Collected g (added b l i (record k.frame { frame_size = size; frame_data = some m }))
  Collected-added m size cap kept own sized even fl st stamped = record {
    frame = record k.frame { frame_size = size; frame_data = some m };
    memory = m;
    data_is = refl;
    memory_is = refl;
    active_is = k.active_is;
    number_is = k.number_is;
    last_is = k.last_is;
    fragment_size_is = k.fragment_size_is;
    flags_is = fl;
    stream_is = st;
    counted = counted_more;
    room = omega (arith, k.room, cap);
    bytes = λ j x e region. elim (Bool-cases (i == j)) [
      | inl same ↦ own x (subst (λ t. InRegion g t x) (sym ((==_iff i j).0 same)) region)
      | inr other ↦ kept x (k.bytes j x (rw other at e) region)
    ];
    sized = sized;
    sized_even = even;
    stamped = stamped;
  }
