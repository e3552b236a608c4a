-- ===== src/Transfer/Handover.antt =====
-- From the bucket to the callback: the worker thread's round behind the last packet of a frame, and
-- the delivery thread's.
use efp.Prelude.{
  ℕ, ◌≡◌, refl, ap, ◌∙◌, arith, Bool, true, false, none, some, List, [], ◌∷◌, ◌++◌, length, lookup,
  erase, ◌==◌, ◌||◌, ltb, ◌&&◌, not, update,
}
use efp.Receiver.{ElasticFrameProtocolReceiver, Bucket}
use efp.Frames.{Env, SuperFrame}
use efp.Transfer.Count.{update_self}
use efp.Receiver.Deliver.{
  assemble, is_complete, judge, pass_loop, clear_buckets, pass_buckets, receiver_worker_round,
  Verdict, Pass, has_timed_out,
}

-- One frame, and nothing else, waits at the receiver: its bucket is complete, and no head-of-line
-- time is set.
pub record Waits (r : ElasticFrameProtocolReceiver) (s : SuperFrame) (order i : ℕ) : Type 0 where
  pub entry : r.bucket_map ≡ (order, i) ∷ []
  pub complete : is_complete (r.bucket_list i) ≡ true
  pub assembled : assemble (r.bucket_list i) ≡ some s
  pub no_hol : r.head_of_line_blocking_timeout_ms ≡ 0

found_first : (order i : ℕ) → lookup order ((order, i) ∷ []) ≡ some i
unfolding lookup
found_first order i = ground arith

erased_first : (order i : ℕ) → erase order ((order, i) ∷ []) ≡ []
unfolding erase
erased_first order i = ground arith

judge_complete :
    (env : Env) (hol next : ℕ) (b : Bucket)
    → (hol == 0) ≡ true
    → is_complete b ≡ true
    → judge env hol next b ≡ Verdict.deliver next
unfolding judge
judge_complete env hol next b h e = ground arith

-- What is left behind.
pub record HandsOver (env : Env) (r : ElasticFrameProtocolReceiver) (s : SuperFrame) (i : ℕ)
    : Type 0 where
  pub after : ElasticFrameProtocolReceiver
  pub result : receiver_worker_round env r ≡ some after
  pub queue : after.super_frame_queue ≡ r.super_frame_queue ++ (s ∷ [])
  pub ready : after.super_frame_ready ≡ true
  pub cleared : after.bucket_map ≡ []
  pub freed : (after.bucket_list i).active ≡ false

abbrev with_frame : Pass → SuperFrame → ℕ → Pass
with_frame p s order = record p {
  delivered = p.delivered ++ (s ∷ []);
  delete_list = p.delete_list ++ (order ∷ []);
}

one_pass :
    (env : Env) (r : ElasticFrameProtocolReceiver) (start : Bool) (s : SuperFrame) (order i : ℕ)
    (p : Pass)
    → Waits r s order i
    → pass_loop env r start ((order, i) ∷ []) p ≡ some (with_frame p s order)
unfolding pass_loop
one_pass env r start s order i p w =
    let flat : (r.head_of_line_blocking_timeout_ms == 0) ≡ true = ground (arith, w.no_hol) in
    let free : p.first_run && (not (r.head_of_line_blocking_timeout_ms == 0) && not start) ≡ false =
      ground (arith, flat) in
    let headless : p.first_run && not (r.head_of_line_blocking_timeout_ms == 0) ≡ false =
      ground (arith, flat) in
    rw (
      free,
      headless,
      judge_complete env r.head_of_line_blocking_timeout_ms p.next_expected (r.bucket_list i) flat
          w.complete,
      w.assembled,
      headless,
    )

one_clear :
    (r : ElasticFrameProtocolReceiver) (order i : ℕ)
    → r.bucket_map ≡ (order, i) ∷ []
    → (after : ElasticFrameProtocolReceiver) × (clear_buckets r (order ∷ []) ≡ some after)
      × (after.bucket_map ≡ [])
      × ((after.bucket_list i).active ≡ false)
      × (after.super_frame_queue ≡ r.super_frame_queue)
unfolding clear_buckets
one_clear r order i e =
    let found : lookup order r.bucket_map ≡ some i = ap (lookup order) e ∙ found_first order i in
    (
      record r {
        bucket_map = erase order r.bucket_map;
        bucket_list =
            update r.bucket_list i
              (record (r.bucket_list i) { active = false; bucket_data = none });
      },
      rw found,
      ap (erase order) e ∙ erased_first order i,
      rw (
          update_self r.bucket_list i
            (record (r.bucket_list i) { active = false; bucket_data = none })),
      refl,
    )

-- The worker thread's round puts the frame behind the queue, wakes the delivery thread and frees the
-- bucket.
pub worker-HandsOver :
    (env : Env) (r : ElasticFrameProtocolReceiver) (s : SuperFrame) (order i : ℕ)
    → Waits r s order i
    → HandsOver env r s i
unfolding receiver_worker_round pass_buckets
worker-HandsOver env r s order i w =
    let start = ltb 1 (length r.bucket_map) || has_timed_out env r r.bucket_map in
    let p0 : Pass = record {
      first_run = r.delivery_hol_first_run;
      next_expected = r.next_expected_frame_number;
      delivered = [];
      delete_list = [];
    } in
    let some_entry : (length r.bucket_map == 0) ≡ false =
      ap (λ (m : List (ℕ × ℕ)). length m == 0) w.entry in
    let loop : pass_loop env r start r.bucket_map p0 ≡ some (with_frame p0 s order) =
      ap (λ (m : List (ℕ × ℕ)). pass_loop env r start m p0) w.entry
      ∙ one_pass env r start s order i p0 w in
    let (after, cleared, empty, freed, queue) =
      one_clear
        (record r {
          delivery_hol_first_run = p0.first_run;
          next_expected_frame_number = p0.next_expected;
        })
        order i w.entry in
    record {
      after = record after {
        super_frame_queue = after.super_frame_queue ++ (s ∷ []);
        super_frame_ready = after.super_frame_ready || true;
      };
      result = rw (some_entry, loop, cleared);
      queue = ap (λ (l : List SuperFrame). l ++ (s ∷ [])) queue;
      ready = ground arith;
      cleared = empty;
      freed = freed;
    }
