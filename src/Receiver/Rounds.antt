-- ===== src/Receiver/Rounds.antt =====
-- A pass over the buckets, a round of the worker thread and a round of the delivery thread, at any
-- receiver in order.
use efp.Prelude.{
  ℕ, ◌≡◌, refl, sym, ap, arith, Bool, true, false, not, ◌||◌, Option, none, some, List, [], ◌∷◌,
  ◌++◌, length, ltb, ◌==◌, if◌then◌else◌, Bool-cases, inl, inr, lookup,
}
use mathlib.Core.List.{append-nil}
use efp.Receiver.{ElasticFrameProtocolReceiver}
use efp.Frames.{SuperFrame, Env}
use efp.Receiver.Deliver.{
  Pass, pass_loop, pass_buckets, has_timed_out, receiver_worker_round, pop_front,
  delivery_worker_round,
}
use efp.Receiver.Invariant.{Outside, outside, IsReceiver}
use efp.Receiver.Passes.{keys, frames}
use efp.Receiver.Picking.{Picked, no_pick, Picks, pass_loop_picks, kept-Stocked}
use efp.Receiver.Clearing.{Freed, contains, with_buckets, clear_buckets-Cleared}

-- What a pass does: it hands on the frames of some entries, in order, and these leave the map.
pub record Passing (r : ElasticFrameProtocolReceiver) (picks : List (ℕ × ℕ))
    (o : Option (List SuperFrame × ElasticFrameProtocolReceiver)) : Type 0 where
  pub picked : Picked r.bucket_map 0 picks
  pub after : ElasticFrameProtocolReceiver
  pub goes : o ≡ some (frames r picks, after)
  pub still : IsReceiver after
  pub left_is :
      (key : ℕ)
      → lookup key after.bucket_map
        ≡ (if contains key (keys picks) then none else lookup key r.bucket_map)
  pub others_stay :
      (key i : ℕ) → lookup key after.bucket_map ≡ some i → after.bucket_list i ≡ r.bucket_list i
  pub freed :
      (key i : ℕ)
      → lookup key r.bucket_map ≡ some i
      → lookup key after.bucket_map ≡ none
      → Freed (after.bucket_list i) key
  pub outside_is : outside after ≡ outside r

abbrev pub first_pass : ElasticFrameProtocolReceiver → Pass
first_pass r = record {
  first_run = r.delivery_hol_first_run;
  next_expected = r.next_expected_frame_number;
  delivered = [];
  delete_list = [];
}

-- Behind the loop, when its lists are those of some entries.
pub cleared :
    (env : Env) (r : ElasticFrameProtocolReceiver) (start : Bool) (out : Pass)
    → IsReceiver r
    → pass_loop env r start r.bucket_map (first_pass r) ≡ some out
    → (x : Picks r 0 r.bucket_map (first_pass r) out) → Passing r x.picks (pass_buckets env r start)
unfolding pass_buckets
cleared env r start out v e x =
    let r1 = record r {
      delivery_hol_first_run = out.first_run;
      next_expected_frame_number = out.next_expected;
    } in
    let c = clear_buckets-Cleared r1 0 x.picks v.kept x.picked in
    record {
      picked = x.picked;
      after = with_buckets r1 c.left c.buckets;
      goes = rw (e, x.deletes, x.delivered_is, c.goes) refl;
      still = record { kept = c.kept; bits_are = v.bits_are; awake = v.awake };
      left_is = c.left_is;
      others_stay = c.others_stay;
      freed = c.freed;
      outside_is = refl;
    }

-- A pass over a receiver in order never fails.
pub pass_buckets-Passing :
    (env : Env) (r : ElasticFrameProtocolReceiver) (start : Bool)
    → IsReceiver r
    → (picks : List (ℕ × ℕ)) × Passing r picks (pass_buckets env r start)
pass_buckets-Passing env r start v =
    let stocked = kept-Stocked r 0 r.bucket_map v.kept.ascending v.kept.entry_holds in
    let (out, e, x) =
      pass_loop_picks env r start 0 r.bucket_map (first_pass r) v.kept.ascending stocked in
    (x.picks, cleared env r start out v e x)

-- What a round of the worker does: it appends the frames of some entries to the queue, in order, and
-- these leave the map.
pub record Round (r : ElasticFrameProtocolReceiver) (picks : List (ℕ × ℕ))
    (o : Option ElasticFrameProtocolReceiver) : Type 0 where
  pub picked : Picked r.bucket_map 0 picks
  pub after : ElasticFrameProtocolReceiver
  pub goes : o ≡ some after
  pub still : IsReceiver after
  pub left_is :
      (key : ℕ)
      → lookup key after.bucket_map
        ≡ (if contains key (keys picks) then none else lookup key r.bucket_map)
  pub others_stay :
      (key i : ℕ) → lookup key after.bucket_map ≡ some i → after.bucket_list i ≡ r.bucket_list i
  pub freed :
      (key i : ℕ)
      → lookup key r.bucket_map ≡ some i
      → lookup key after.bucket_map ≡ none
      → Freed (after.bucket_list i) key
  pub outside_is : outside after ≡ record (outside r) {
    super_frame_queue = r.super_frame_queue ++ frames r picks;
    super_frame_ready = after.super_frame_ready;
  }

-- The flag is set when something was appended.
still_awake :
    (queue more : List SuperFrame) (ready : Bool)
    → length queue == 0 || ready ≡ true
    → length (queue ++ more) == 0 || (ready || not (length more == 0)) ≡ true
still_awake queue [] ready h = rw (append-nil queue) (ground (arith, h))
still_awake queue (x ∷ more) ready h = ground (arith, h)

-- A round whose pass does so.
pub by_pass :
    (env : Env) (r : ElasticFrameProtocolReceiver) (picks : List (ℕ × ℕ))
    → Passing r picks
        (pass_buckets env r (ltb 1 (length r.bucket_map) || has_timed_out env r r.bucket_map))
    → length r.bucket_map == 0 ≡ false
    → Round r picks (receiver_worker_round env r)
unfolding receiver_worker_round
by_pass env r picks x busy =
    let out = frames r picks in
    let after = record (x.after) {
      super_frame_queue = x.after.super_frame_queue ++ out;
      super_frame_ready = x.after.super_frame_ready || not (length out == 0);
    } in
    record {
      picked = x.picked;
      after = after;
      goes = rw (busy, x.goes) refl;
      still = record {
        kept = x.still.kept;
        bits_are = x.still.bits_are;
        awake = still_awake x.after.super_frame_queue out x.after.super_frame_ready x.still.awake;
      };
      left_is = x.left_is;
      others_stay = x.others_stay;
      freed = x.freed;
      outside_is =
          ap
            (λ (w : Outside). record w {
              super_frame_queue = w.super_frame_queue ++ out;
              super_frame_ready = after.super_frame_ready;
            })
            x.outside_is;
    }

-- With no bucket in use, a round does nothing.
pub idle-Round :
    (env : Env) (r : ElasticFrameProtocolReceiver)
    → IsReceiver r
    → length r.bucket_map == 0 ≡ true
    → Round r [] (receiver_worker_round env r)
unfolding receiver_worker_round
idle-Round env r v idle = record {
  picked = no_pick;
  after = r;
  goes = rw idle refl;
  still = v;
  left_is = λ key. refl;
  others_stay = λ key i there. refl;
  freed = λ key i there gone. absurd (ground (arith, there, gone));
  outside_is = rw (append-nil r.super_frame_queue) refl;
}

-- A round of the worker thread at a receiver in order never fails: in both modes of delivery, and
-- whatever the clock shows, it appends the frames of some entries of the map to the queue of the
-- delivery thread, in the order of the map, takes exactly these out of the map, leaves the other
-- buckets and the flags as they were, and the receiver in order, its delivery thread awake if anything
-- is queued.
pub receiver_worker_round-Round :
    (env : Env) (r : ElasticFrameProtocolReceiver)
    → IsReceiver r
    → (picks : List (ℕ × ℕ)) × Round r picks (receiver_worker_round env r)
receiver_worker_round-Round env r v = elim (Bool-cases (length r.bucket_map == 0)) [
  | inl idle ↦ ([], idle-Round env r v idle)
  | inr busy ↦
      let (picks, x) =
        pass_buckets-Passing env r (ltb 1 (length r.bucket_map) || has_timed_out env r r.bucket_map)
          v in
      (picks, by_pass env r picks x busy)
]

-- The delivery thread takes the front of the queue, and keeps the receiver in order.
pub delivery_worker_round_lem :
    (r : ElasticFrameProtocolReceiver)
    → IsReceiver r
    → IsReceiver (delivery_worker_round r).1
      × (elim (delivery_worker_round r).0 [ none ↦ [] | some frame ↦ frame ∷ [] ]
            ++ (delivery_worker_round r).1.super_frame_queue
          ≡ r.super_frame_queue)
      × ((delivery_worker_round r).1.current_mode ≡ r.current_mode)
unfolding delivery_worker_round pop_front
delivery_worker_round_lem r v = by_queue r.super_frame_queue refl
  where
    by_queue :
        (queue : List SuperFrame)
        → r.super_frame_queue ≡ queue
        → IsReceiver (pop_front r queue).1
          × (elim (pop_front r queue).0 [ none ↦ [] | some frame ↦ frame ∷ [] ]
                ++ (pop_front r queue).1.super_frame_queue
              ≡ r.super_frame_queue)
          × ((pop_front r queue).1.current_mode ≡ r.current_mode)
    by_queue [] e = (
      record {
        kept = v.kept;
        bits_are = v.bits_are;
        awake = ground (arith, ap (length {A = SuperFrame}) e);
      },
      refl,
      refl,
    )
    by_queue (frame ∷ rest) e = (
      record {
        kept = v.kept;
        bits_are = v.bits_are;
        awake = ground (arith, v.awake, ap (length {A = SuperFrame}) e);
      },
      sym e,
      refl,
    )
