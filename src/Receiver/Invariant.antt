-- ===== src/Receiver/Invariant.antt =====
-- The invariant of a receiver, for all its handlers, and what the shared parts of the handlers do to
-- it.
use efp.Prelude.{
  ℕ, ◌+◌, ◌-◌, ◌%◌, ◌<◌, ◌≡◌, refl, sym, ap, ◌∙◌, arith, Bool, true, ◌||◌, some, List, length, ltb,
  ◌==◌, Bool-cases, inl, inr, lookup, bind_some, some_second, no_more_keys,
}
use efp.Message.{ElasticFrameMessages}
use efp.Receiver.{
  ElasticFrameProtocolReceiver, EfpReceiverMode, Bucket, new_receiver, new_bucket,
  super_frame_recalculator, set_bucket, store_payload,
}
use efp.Frames.{SuperFrame, write}
use efp.Receiver.Kept.{Holds, Kept}

-- What the unpacking of a packet does not touch.
pub record Outside : Type 0 where
  pub bucket_timeout_ms : ℕ
  pub head_of_line_blocking_timeout_ms : ℕ
  pub is_worker_thread_active : Bool
  pub is_delivery_thread_active : Bool
  pub thread_active : Bool
  pub super_frame_queue : List SuperFrame
  pub super_frame_ready : Bool
  pub current_mode : EfpReceiverMode

abbrev pub outside : ElasticFrameProtocolReceiver → Outside
outside r = record {
  bucket_timeout_ms = r.bucket_timeout_ms;
  head_of_line_blocking_timeout_ms = r.head_of_line_blocking_timeout_ms;
  is_worker_thread_active = r.is_worker_thread_active;
  is_delivery_thread_active = r.is_delivery_thread_active;
  thread_active = r.thread_active;
  super_frame_queue = r.super_frame_queue;
  super_frame_ready = r.super_frame_ready;
  current_mode = r.current_mode;
}

-- The map and the buckets agree, the 64-bit number ends in the 16 bits seen last, and the rest is
-- what it was.
pub record Stands (w : Outside) (r : ElasticFrameProtocolReceiver) : Type 0 where
  pub kept : Kept r.bucket_map r.bucket_list
  pub bits_are : r.super_frame_recalc % 65536 ≡ r.old_super_frame_number
  pub outside_is : outside r ≡ w

-- Besides that, the flag that wakes the delivery thread is set while frames wait for it.
pub record IsReceiver (r : ElasticFrameProtocolReceiver) : Type 0 where
  pub kept : Kept r.bucket_map r.bucket_list
  pub bits_are : r.super_frame_recalc % 65536 ≡ r.old_super_frame_number
  pub awake : length r.super_frame_queue == 0 || r.super_frame_ready ≡ true

abbrev pub stands : {r : ElasticFrameProtocolReceiver} → IsReceiver r → Stands (outside r) r
stands v = record { kept = v.kept; bits_are = v.bits_are; outside_is = refl }

pub stands_again :
    (r r2 : ElasticFrameProtocolReceiver) → IsReceiver r → Stands (outside r) r2 → IsReceiver r2
stands_again r r2 v x = record {
  kept = x.kept;
  bits_are = x.bits_are;
  awake =
      ap (λ (w : Outside). length w.super_frame_queue == 0 || w.super_frame_ready) x.outside_is
      ∙ v.awake;
}

-- A receiver is made so.
pub new_receiver-IsReceiver :
    (bucket_timeout hol_timeout : ℕ) (mode : EfpReceiverMode)
    → IsReceiver (new_receiver bucket_timeout hol_timeout mode)
unfolding new_receiver new_bucket lookup
new_receiver-IsReceiver bucket_timeout hol_timeout mode = record {
  kept = record {
    ascending = no_more_keys;
    entry_holds = λ key i found. absurd (ground (arith, found));
    entry_found = λ i used. absurd (ground (arith, used));
  };
  bits_are = refl;
  awake = refl;
}

-- The number given to a frame ends in the frame's own number, and the rest stays.
pub recalculator-Stands :
    {w : Outside} (r : ElasticFrameProtocolReceiver) (n : ℕ)
    → Stands w r
    → n < 65536
    → ((super_frame_recalculator r n).0 % 65536 ≡ n)
      × Stands w (super_frame_recalculator r n).1
      × ((super_frame_recalculator r n).1.bucket_list ≡ r.bucket_list)
unfolding super_frame_recalculator
recalculator-Stands r n v fits = elim (Bool-cases r.super_frame_first_time) [
  | inl first ↦ rw first (
    omega (arith, fits),
    record { kept = v.kept; bits_are = omega (arith, fits); outside_is = v.outside_is },
    refl,
  )
  | inr later ↦
      let bits = v.bits_are in
      elim (Bool-cases (ltb ((n + 65536 - r.old_super_frame_number) % 65536) 32768)) [
        | inl ahead ↦
            rw (later, ahead)
              (
                omega (arith, fits, bits),
                record {
                  kept = v.kept;
                  bits_are = omega (arith, fits, bits);
                  outside_is = v.outside_is;
                },
                refl,
              )
        | inr behind ↦
            rw (later, behind)
              (
                omega (arith, fits, bits),
                record {
                  kept = v.kept;
                  bits_are = omega (arith, fits, bits);
                  outside_is = v.outside_is;
                },
                refl,
              )
      ]
]

-- A payload that is stored leaves the bucket in use for the same frame.
pub store_payload-Holds :
    (r r2 : ElasticFrameProtocolReceiver) (key i : ℕ) (b : Bucket) (start : ℕ) (payload : List ℕ)
    (m : ElasticFrameMessages)
    → Holds b key i
    → store_payload r i b start payload ≡ some (m, r2)
    → (b2 : Bucket) × Holds b2 key i × (r2 ≡ set_bucket r i b2)
unfolding store_payload
store_payload-Holds r r2 key i b start payload m h e =
    let (frame, e1, rest1) = bind_some b.bucket_data _ e in
    let (memory, e2, rest2) = bind_some frame.frame_data _ rest1 in
    let (written, e3, rest3) = bind_some (write memory start payload) _ rest2 in
    (
      record b { bucket_data = some (record frame { frame_data = some written }) },
      record {
        in_use = h.in_use;
        order_is = h.order_is;
        place_is = h.place_is;
        frame = record frame { frame_data = some written };
        has_frame = refl;
      },
      sym (some_second _ _ rest3),
    )
