-- ===== src/Receiver/Keeping.antt =====
-- What keeps the invariant of the receiver: an answer, a test, a chain, a bucket that is opened, and
-- one that is filled or dropped.
pub mod Opening
pub mod Filling
pub mod Receiving
pub mod Packet
use efp.Prelude.{
  ℕ, ◌+◌, ◌-◌, ◌*◌, ◌%◌, ◌<◌, ◌≡◌, refl, sym, ap, ◌∙◌, subst, arith, Bool, true, false, Option,
  none, some, List, ◌==◌, if◌then◌else◌, if_true, Bool-cases, inl, inr, lookup, insert,
  lookup-insert, bind_some, some_second, drop, length, ltb, ◌>>=◌,
}
use efp.Prelude.Bytes.{AllBytes, drop-AllBytes, le_value_fits}
use efp.Message.{
  ElasticFrameMessages, memory_allocation_error, buffer_out_of_bounds, too_old_fragment, no_error,
  duplicate_packet_received, buffer_out_of_resources, type2_frame_out_of_bounds,
}
use efp.Wire.{
  ElasticFrameType1, ElasticFrameType2, ElasticFrameType3, decode_type1, decode_type2, decode_type3,
  type1_size, type2_size, type3_size,
}
use efp.Receiver.{
  ElasticFrameProtocolReceiver, Bucket, super_frame_recalculator, set_bucket, drop_bucket,
  enter_bucket, store_payload, resize, stream_at, mark_received, received_at, none_received,
  lacks_memory,
}
use efp.Frames.{Env, new_super_frame}
use efp.Receiver.Kept.{Holds, Kept, enter-Kept, drop-Kept, change-Kept}
use efp.Receiver.Invariant.{Outside, Stands, store_payload-Holds}
use efp.Receiver.Unpack.Type1.{opened1, open_type1, fresh_type1, fill_type1, unpack_type1}
use efp.Receiver.Unpack.Type2.{
  note_stream, opened2, open_type2, fresh_type2, filled2, take_type2, fill_type2, unpack_type2,
}
use efp.Receiver.Unpack.Type3.{
  this_fragment_no, size_with_tail, opened3, open_type3, fresh_type3, fill_type3, unpack_type3,
}

abbrev pub Answer : Type 0
Answer = Option (ElasticFrameMessages × ElasticFrameProtocolReceiver)

-- If the handler returns, the receiver stands as it did.
abbrev pub Keeps : Outside → Answer → Type 0
Keeps w o = (x : ElasticFrameMessages × ElasticFrameProtocolReceiver) → o ≡ some x → Stands w x.1

pub answer-Keeps :
    {w : Outside} (m : ElasticFrameMessages) {r : ElasticFrameProtocolReceiver}
    → Stands w r
    → Keeps w (some (m, r))
answer-Keeps m v x e = subst (Stands _) (some_second _ x e) v

pub if-Keeps :
    {w : Outside} (c : Bool) (x y : Answer) → Keeps w x → Keeps w y → Keeps w (if c then x else y)
if-Keeps true x y h k = h
if-Keeps false x y h k = k

-- The same with the outcome of the test.
pub cases-Keeps :
    {w : Outside} (c : Bool) (x y : Answer)
    → (c ≡ true → Keeps w x)
    → (c ≡ false → Keeps w y)
    → Keeps w (if c then x else y)
cases-Keeps true x y h k = h refl
cases-Keeps false x y h k = k refl

pub bind-Keeps {ℓ} :
    {w : Outside} {A : Type ℓ} (o : Option A) (f : A → Answer)
    → ((a : A) → Keeps w (f a))
    → Keeps w (o >>= f)
bind-Keeps o f h x e = let (a, there, rest) = bind_some o f e in h a x rest

-- A bucket that is free is opened for a frame.
module _ {w : Outside} (r : ElasticFrameProtocolReceiver) (i : ℕ) (b : Bucket) (v : Stands w r)
    (free : (r.bucket_list i).active ≡ false) (holds : Holds b b.delivery_order i) where
  entered : Stands w (enter_bucket r i b)
  unfolding enter_bucket
  entered = record {
    kept = enter-Kept r.bucket_map r.bucket_list v.kept b.delivery_order i b free holds;
    bits_are = v.bits_are;
    outside_is = v.outside_is;
  }

  pub opened_dropped : Stands w (drop_bucket (enter_bucket r i b) i b)
  unfolding enter_bucket drop_bucket
  opened_dropped = record {
    kept =
        drop-Kept (insert b.delivery_order i r.bucket_map) _ entered.kept b.delivery_order i
          (record b { active = false })
          (ground (arith, lookup-insert r.bucket_map b.delivery_order i b.delivery_order)) refl;
    bits_are = v.bits_are;
    outside_is = v.outside_is;
  }

  pub opened_stored :
      (start : ℕ) (payload : List ℕ)
      → Keeps w (store_payload (enter_bucket r i b) i b start payload)
  unfolding enter_bucket
  opened_stored start payload x e =
      let (b2, holds2, same) =
        store_payload-Holds (enter_bucket r i b) x.1 b.delivery_order i b start payload x.0 holds
          e in
      subst (Stands _) (sym same) (record {
        kept =
            change-Kept (insert b.delivery_order i r.bucket_map) _ entered.kept b.delivery_order i
              b2 (ground (arith, lookup-insert r.bucket_map b.delivery_order i b.delivery_order))
              holds2;
        bits_are = v.bits_are;
        outside_is = v.outside_is;
      })

-- What a first fragment does behind the test for its age.
pub opening :
    {w : Outside} (r : ElasticFrameProtocolReceiver) (i : ℕ)
    → Stands w r
    → (r.bucket_list i).active ≡ false
    → (b : Bucket) (out : Bool) (start : ℕ) (payload : List ℕ) → Holds b b.delivery_order i
    → Keeps w (
        if lacks_memory b
        then some (memory_allocation_error, drop_bucket (enter_bucket r i b) i b)
        else if out
        then some (buffer_out_of_bounds, drop_bucket (enter_bucket r i b) i b)
        else store_payload (enter_bucket r i b) i b start payload)
opening r i v free b out start payload holds =
    if-Keeps (lacks_memory b) _ _
      (answer-Keeps memory_allocation_error (opened_dropped r i b v free holds))
      (if-Keeps out _ _ (answer-Keeps buffer_out_of_bounds (opened_dropped r i b v free holds))
        (opened_stored r i b v free holds start payload))

-- A bucket in use is filled or dropped.
module _ {w : Outside} (r : ElasticFrameProtocolReceiver) (i : ℕ) (v : Stands w r)
    (used : (r.bucket_list i).active ≡ true) where
  pub filled_dropped : Stands w (drop_bucket r i (r.bucket_list i))
  unfolding drop_bucket
  filled_dropped = record {
    kept =
        drop-Kept r.bucket_map r.bucket_list v.kept (r.bucket_list i).delivery_order i
          (record (r.bucket_list i) { active = false }) (v.kept.entry_found i used) refl;
    bits_are = v.bits_are;
    outside_is = v.outside_is;
  }

  pub filled_set :
      (b : Bucket) → Holds b (r.bucket_list i).delivery_order i → Stands w (set_bucket r i b)
  filled_set b holds = record {
    kept =
        change-Kept r.bucket_map r.bucket_list v.kept (r.bucket_list i).delivery_order i b
          (v.kept.entry_found i used) holds;
    bits_are = v.bits_are;
    outside_is = v.outside_is;
  }

  pub filled_stored :
      (b : Bucket) (start : ℕ) (payload : List ℕ)
      → Holds b (r.bucket_list i).delivery_order i
      → Keeps w (store_payload r i b start payload)
  filled_stored b start payload holds x e =
      let (b2, holds2, same) =
        store_payload-Holds r x.1 (r.bucket_list i).delivery_order i b start payload x.0 holds e in
      subst (Stands _) (sym same) (filled_set b2 holds2)

  pub in_use : Holds (r.bucket_list i) (r.bucket_list i).delivery_order i
  in_use = v.kept.entry_holds (r.bucket_list i).delivery_order i (v.kept.entry_found i used)
