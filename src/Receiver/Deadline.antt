-- ===== src/Receiver/Deadline.antt =====
-- The loop of the worker thread and the deadlines of the buckets.
use efp.Prelude.{
  ℕ, suc, zero, ◌+◌, ◌*◌, ◌≤◌, ◌<◌, ◌≡◌, refl, ap, ◌∙◌, arith, Bool, true, not, Option, none, some,
  List, [], ◌∷◌, ◌++◌, length, ◌==◌, Bool-cases, Option-cases, inl, inr, lookup,
}
use efp.Receiver.{ElasticFrameProtocolReceiver, Bucket}
use efp.Frames.{SuperFrame, Env}
use efp.Receiver.Deliver.{hand_over, receiver_worker_round, pop_front, delivery_worker_round}
use efp.Receiver.Invariant.{Outside, IsReceiver}
use efp.Receiver.Passes.{is_due, due}
use efp.Receiver.Rounds.{Round}
use efp.Receiver.Flat.{receiver_worker_round-flat, due-contains, due_frame}
use efp.Receiver.Threads.{turn, receiver_worker, delivery_worker}
use efp.Receiver.Stopping.{turn_lem}

-- The number is not in the map, or its bucket's deadline is at most `rounds` rounds ahead.
data Waits (key reference : ℕ) (r : ElasticFrameProtocolReceiver) : ℕ → Type 0 where
  gone : {rounds : ℕ} → lookup key r.bucket_map ≡ none → Waits key reference r rounds
  waits :
      {rounds : ℕ} (i : ℕ)
      → lookup key r.bucket_map ≡ some i
      → (r.bucket_list i).timeout ≤ reference + 10000 * suc rounds
      → Waits key reference r (suc rounds)

module _ (grants : ℕ → Bool) (key : ℕ) where
  abbrev clock_of : ℕ → ℕ → Env
  clock_of reference sample = record { now = (turn reference sample).time_now; grants = grants }

  -- An entry that is still there was not due, and has its bucket as it was.
  not_due :
      (reference sample : ℕ) (r : ElasticFrameProtocolReceiver)
      (x : Round r
        (due (clock_of reference sample) r r.bucket_map)
        (receiver_worker_round (clock_of reference sample) r))
      (i j : ℕ)
      → lookup key r.bucket_map ≡ some i
      → lookup key x.after.bucket_map ≡ some j
      → ((turn reference sample).time_now < (r.bucket_list i).timeout)
        × (x.after.bucket_list j ≡ r.bucket_list i)
  not_due reference sample r x i j there still =
      let env = clock_of reference sample in
      let one : j ≡ i = ground (arith, x.left_is key, there, still) in
      (
        elim (Bool-cases (is_due env (r.bucket_list i))) [
          | inl now ↦ absurd (
              ground (arith, x.left_is key, still, due-contains env r key i r.bucket_map there now))
          | inr later ↦ ground (arith, later)
        ],
        x.others_stay key j still ∙ ap r.bucket_list one,
      )

  later :
      (reference rounds : ℕ) (r : ElasticFrameProtocolReceiver) (i : ℕ)
      → lookup key r.bucket_map ≡ some i
      → reference < (r.bucket_list i).timeout
      → (r.bucket_list i).timeout ≤ reference + 10000 * rounds
      → Waits key reference r rounds
  later reference zero r i there late soon = absurd (ground (arith, late, soon))
  later reference (suc rounds) r i there late soon = waits i there soon

  one_turn :
      (reference sample rounds : ℕ) (r : ElasticFrameProtocolReceiver)
      → (x : Round r
          (due (clock_of reference sample) r r.bucket_map)
          (receiver_worker_round (clock_of reference sample) r))
      → Waits key reference r (suc rounds)
      → Waits key (turn reference sample).time_reference x.after rounds
  one_turn reference sample rounds r x (gone e) = gone (ground (arith, x.left_is key, e))
  one_turn reference sample rounds r x (waits i there soon) =
      elim (Option-cases (lookup key x.after.bucket_map)) [
        | inl left ↦ gone left
        | inr (j, still) ↦
            let (late, same) = not_due reference sample r x i j there still in
            let t = (turn_lem reference sample) in
            later (turn reference sample).time_reference rounds x.after j still
              (rw same (omega (arith, t.0, t.2, late, soon)))
              (rw same (omega (arith, t.0, t.2, late, soon)))
      ]

  -- Through all rounds.
  all_rounds :
      (samples : List ℕ) (reference : ℕ) (r : ElasticFrameProtocolReceiver)
      → IsReceiver r
      → (r.head_of_line_blocking_timeout_ms == 0) ≡ true
      → Waits key reference r (length samples)
      → (last : ℕ) × (r2 : ElasticFrameProtocolReceiver) × (receiver_worker grants samples reference
            r
          ≡ some (last, r2))
        × IsReceiver r2
        × (lookup key r2.bucket_map ≡ none)
  unfolding receiver_worker
  all_rounds [] reference r v flat (gone e) = (reference, r, refl, v, e)
  all_rounds (sample ∷ samples) reference r v flat w =
      let x = receiver_worker_round-flat (clock_of reference sample) r v flat in
      let flat2 : (x.after.head_of_line_blocking_timeout_ms == 0) ≡ true =
        ap (λ (o : Outside). o.head_of_line_blocking_timeout_ms == 0) x.outside_is ∙ flat in
      let (last, r2, runs, v2, none_left) =
        all_rounds samples (turn reference sample).time_reference x.after x.still flat2
          (one_turn reference sample (length samples) r x w) in
      (last, r2, rw (x.goes) runs, v2, none_left)

-- Without a head-of-line time, the loop of the worker thread runs any number of rounds at a receiver
-- in order without failing, whatever the clock shows, and if its rounds, at least one, count 10000 us
-- each up to the deadline of a bucket in use, the bucket's number is out of the map behind them: no
-- frame is held longer, however many of its packets are missing.
pub receiver_worker-deadline :
    (grants : ℕ → Bool) (sample : ℕ) (samples : List ℕ) (reference : ℕ)
    (r : ElasticFrameProtocolReceiver) (key i : ℕ)
    → IsReceiver r
    → (r.head_of_line_blocking_timeout_ms == 0) ≡ true
    → lookup key r.bucket_map ≡ some i
    → (r.bucket_list i).timeout ≤ reference + 10000 * length (sample ∷ samples)
    → (last : ℕ) × (r2 : ElasticFrameProtocolReceiver) × (receiver_worker grants
          (sample ∷ samples)
          reference
          r
        ≡ some (last, r2))
      × IsReceiver r2
      × (lookup key r2.bucket_map ≡ none)
receiver_worker-deadline grants sample samples reference r key i v flat there soon =
    all_rounds grants key (sample ∷ samples) reference r v flat (waits i there soon)

-- Without a head-of-line time, a round of the worker thread at or behind the deadline of a bucket in
-- use hands over its frame with all that the bucket knows of it, somewhere behind the frames queued before, and frees its number.
pub receiver_worker_round-due :
    (env : Env) (r : ElasticFrameProtocolReceiver) (key i : ℕ) (frame : SuperFrame)
    → IsReceiver r
    → (r.head_of_line_blocking_timeout_ms == 0) ≡ true
    → lookup key r.bucket_map ≡ some i
    → (r.bucket_list i).bucket_data ≡ some frame
    → (r.bucket_list i).timeout ≤ env.now
    → (r2 : ElasticFrameProtocolReceiver) × (before behind : List SuperFrame)
      × (receiver_worker_round env r ≡ some r2)
      × (r2.super_frame_queue
          ≡ r.super_frame_queue ++ (before ++ (hand_over (r.bucket_list i) frame ∷ behind)))
      × (lookup key r2.bucket_map ≡ none)
receiver_worker_round-due env r key i frame v flat there e over =
    let x = receiver_worker_round-flat env r v flat in
    let now : is_due env (r.bucket_list i) ≡ true = ground (arith, over) in
    let (before, behind, among) = due_frame env r key i frame r.bucket_map there now e in
    (
      x.after,
      before,
      behind,
      x.goes,
      ap (λ (o : Outside). o.super_frame_queue) x.outside_is
          ∙ ap (λ (l : List SuperFrame). r.super_frame_queue ++ l) among,
      ground (arith, x.left_is key, due-contains env r key i r.bucket_map there now),
    )

-- As many rounds of the delivery thread as frames wait hand over the whole queue, in its order.
pub delivery_worker_lem :
    (queue : List SuperFrame) (r : ElasticFrameProtocolReceiver)
    → r.super_frame_queue ≡ queue
    → ((delivery_worker (length queue) r).0 ≡ queue)
      × ((delivery_worker (length queue) r).1.super_frame_queue ≡ [])
unfolding delivery_worker delivery_worker_round pop_front
delivery_worker_lem [] r e = (refl, e)
delivery_worker_lem (frame ∷ rest) r e =
    let popped = ap (λ (queue : List SuperFrame). pop_front r queue) e in
    let (handed, empty) = delivery_worker_lem rest (pop_front r (frame ∷ rest)).1 refl in
    (
      ap
            (λ (x : Option SuperFrame × ElasticFrameProtocolReceiver).
              elim x.0 [ none ↦ [] | some f ↦ f ∷ [] ] ++ (delivery_worker (length rest) x.1).0)
            popped
          ∙ ap (λ (l : List SuperFrame). frame ∷ l) handed,
      ap
            (λ (x : Option SuperFrame × ElasticFrameProtocolReceiver).
              (delivery_worker (length rest) x.1).1.super_frame_queue)
            popped
          ∙ empty,
    )

-- What is handed over for a bucket: the frame's memory and size as they were, with all that the packets
-- told the bucket of the frame. It is broken exactly when the count of the fragments received has not
-- reached the number of the last fragment.
pub record HandedFrom (b : Bucket) (frame handed : SuperFrame) : Type 0 where
  pub broken_is : handed.broken ≡ not (b.fragment_counter == b.of_fragment_no)
  pub size_is : handed.frame_size ≡ frame.frame_size
  pub data_is : handed.frame_data ≡ frame.frame_data
  pub content_is : handed.data_content ≡ b.data_content
  pub times_are : (handed.pts ≡ b.pts) × (handed.dts ≡ b.dts)
  pub code_is : handed.code ≡ b.code
  pub stream_is : handed.stream_id ≡ b.stream
  pub source_is : handed.source ≡ b.source
  pub flags_are : handed.flags ≡ b.flags
  pub number_is : handed.super_frame_no ≡ b.saved_super_frame_no

hand_over-HandedFrom : (b : Bucket) (frame : SuperFrame) → HandedFrom b frame (hand_over b frame)
hand_over-HandedFrom b frame = record {
  broken_is = refl;
  size_is = refl;
  data_is = refl;
  content_is = refl;
  times_are = (refl, refl);
  code_is = refl;
  stream_is = refl;
  source_is = refl;
  flags_are = refl;
  number_is = refl;
}

-- The two threads together, without a head-of-line time: behind a round of the worker thread at or
-- behind the deadline of a bucket in use, as many rounds of the delivery thread as frames wait hand
-- over the frames queued before, and among those behind them the bucket's frame, with its memory and
-- all that the packets told the bucket of it, marked broken exactly when the count of its fragments
-- is not full; nothing is left in the queue.
pub deadline-handed :
    (env : Env) (r : ElasticFrameProtocolReceiver) (key i : ℕ) (frame : SuperFrame)
    → IsReceiver r
    → (r.head_of_line_blocking_timeout_ms == 0) ≡ true
    → lookup key r.bucket_map ≡ some i
    → (r.bucket_list i).bucket_data ≡ some frame
    → (r.bucket_list i).timeout ≤ env.now
    → (r2 : ElasticFrameProtocolReceiver) × (before behind : List SuperFrame)
      × (handed : SuperFrame) × (receiver_worker_round env r ≡ some r2)
      × (lookup key r2.bucket_map ≡ none)
      × ((delivery_worker (length r2.super_frame_queue) r2).0
          ≡ r.super_frame_queue ++ (before ++ (handed ∷ behind)))
      × HandedFrom (r.bucket_list i) frame handed
      × ((delivery_worker (length r2.super_frame_queue) r2).1.super_frame_queue ≡ [])
deadline-handed env r key i frame v flat there e over =
    let (r2, before, behind, goes, queue_is, left) =
      receiver_worker_round-due env r key i frame v flat there e over in
    let (all, empty) = delivery_worker_lem r2.super_frame_queue r2 refl in
    let b : Bucket = r.bucket_list i in
    (
      r2,
      before,
      behind,
      hand_over b frame,
      goes,
      left,
      all ∙ queue_is,
      hand_over-HandedFrom b frame,
      empty,
    )
