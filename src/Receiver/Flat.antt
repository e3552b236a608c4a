-- ===== src/Receiver/Flat.antt =====
-- A round of the worker thread without a head-of-line time.
use efp.Prelude.{
  ℕ, ◌+◌, ◌≡◌, refl, sym, ap, ◌∙◌, subst, arith, Bool, true, ◌||◌, some, List, [], ◌∷◌, ◌++◌,
  length, ltb, ◌==◌, Bool-cases, inl, inr, lookup, Ascending, no_more_keys, next_key,
}
use mathlib.Core.List.{append_assoc}
use efp.Receiver.{ElasticFrameProtocolReceiver}
use efp.Frames.{SuperFrame, Env}
use efp.Receiver.Deliver.{pass_buckets, has_timed_out, hand_over, receiver_worker_round}
use efp.Receiver.Invariant.{IsReceiver}
use efp.Receiver.Passes.{
  keys, frames, frame_at, is_due, due, passed_on, pass_loop_flat, assemble_lem,
}
use efp.Receiver.Picking.{Picked, no_pick, pick, Picked-lower, Picked-behind, kept-Stocked}
use efp.Receiver.Clearing.{contains}
use efp.Receiver.Rounds.{Passing, first_pass, cleared, Round, by_pass, idle-Round}

here : (key i : ℕ) (rest : List (ℕ × ℕ)) → lookup key ((key, i) ∷ rest) ≡ some i
unfolding lookup
here key i rest = ground arith

module _ (env : Env) (r : ElasticFrameProtocolReceiver) where
  due-Picked : (low : ℕ) (m : List (ℕ × ℕ)) → Ascending low m → Picked m low (due env r m)
  unfolding lookup
  due-Picked low [] no_more_keys = no_pick
  due-Picked low ((key, i) ∷ rest) (next_key above more) =
      let behind : Picked ((key, i) ∷ rest) (key + 1) (due env r rest) =
        Picked-behind (key + 1) (due env r rest) (omega arith) (due-Picked (key + 1) rest more) in
      elim (Bool-cases (is_due env (r.bucket_list i))) [
        | inl now ↦ rw now (pick {i = i} above (here key i rest) behind)
        | inr later ↦ rw later (Picked-lower behind (omega (arith, above)))
      ]

  -- The pass picks them.
  pub flat-Passing :
      (start : Bool)
      → IsReceiver r
      → (r.head_of_line_blocking_timeout_ms == 0) ≡ true
      → Passing r (due env r r.bucket_map) (pass_buckets env r start)
  flat-Passing start v flat =
      let stocked = kept-Stocked r 0 r.bucket_map v.kept.ascending v.kept.entry_holds in
      cleared env r start (passed_on r (first_pass r) _ (due env r r.bucket_map)) v
        (pass_loop_flat env r start r.bucket_map (first_pass r) flat stocked)
        (record {
          picks = due env r r.bucket_map;
          picked = due-Picked 0 r.bucket_map v.kept.ascending;
          delivered_is = refl;
          deletes = refl;
        })

  none_due : (m : List (ℕ × ℕ)) → length m == 0 ≡ true → [] ≡ due env r m
  none_due [] e = refl
  none_due (x ∷ m) e = absurd (ground (arith, e))

  -- At a receiver in order and without a head-of-line time, a round of the worker thread appends to the
  -- queue exactly the frames that are complete or over their time, in the order of the map, takes
  -- exactly these out of the map, leaves the other buckets as they were, and the receiver in order.
  pub receiver_worker_round-flat :
      IsReceiver r
      → (r.head_of_line_blocking_timeout_ms == 0) ≡ true
      → Round r (due env r r.bucket_map) (receiver_worker_round env r)
  receiver_worker_round-flat v flat = elim (Bool-cases (length r.bucket_map == 0)) [
    | inl idle ↦
        subst (λ picks. Round r picks (receiver_worker_round env r)) (none_due r.bucket_map idle)
          (idle-Round env r v idle)
    | inr busy ↦
        by_pass env r (due env r r.bucket_map)
          (flat-Passing (ltb 1 (length r.bucket_map) || has_timed_out env r r.bucket_map) v flat)
          busy
  ]

  pub due-contains :
      (key i : ℕ) (m : List (ℕ × ℕ))
      → lookup key m ≡ some i
      → is_due env (r.bucket_list i) ≡ true
      → contains key (keys (due env r m)) ≡ true
  unfolding lookup
  due-contains key i [] there now = absurd (ground (arith, there))
  due-contains key i ((key', i') ∷ rest) there now = elim (Bool-cases (key' == key)) [
    | inl same ↦
        let e : i' ≡ i = ground (arith, there, same) in
        let now' : is_due env (r.bucket_list i') ≡ true =
          ap (λ (x : ℕ). is_due env (r.bucket_list x)) e ∙ now in
        rw (now', same) refl
    | inr other ↦
        let more = due-contains key i rest (ground (arith, there, other)) now in
        elim (Bool-cases (is_due env (r.bucket_list i'))) [
          | inl now' ↦ rw (now', other) more
          | inr later ↦ rw later more
        ]
  ]

  -- The frame of an entry that is due is among those that leave.
  pub due_frame :
      (key i : ℕ) (frame : SuperFrame) (m : List (ℕ × ℕ))
      → lookup key m ≡ some i
      → is_due env (r.bucket_list i) ≡ true
      → (r.bucket_list i).bucket_data ≡ some frame
      → (before behind : List SuperFrame) × (frames r (due env r m)
          ≡ before ++ (hand_over (r.bucket_list i) frame ∷ behind))
  unfolding lookup
  due_frame key i frame [] there now e = absurd (ground (arith, there))
  due_frame key i frame ((key', i') ∷ rest) there now e = elim (Bool-cases (key' == key)) [
    | inl same ↦
        let e' : i' ≡ i = ground (arith, there, same) in
        let now' : is_due env (r.bucket_list i') ≡ true =
          ap (λ (x : ℕ). is_due env (r.bucket_list x)) e' ∙ now in
        (
          [],
          frames r (due env r rest),
          rw now' (
              ap (λ (x : ℕ). frame_at (r.bucket_list x) ++ frames r (due env r rest)) e'
              ∙ ap (λ (l : List SuperFrame). l ++ frames r (due env r rest))
                  (assemble_lem (r.bucket_list i) frame e).1),
        )
    | inr other ↦
        let (before, behind, more) =
          due_frame key i frame rest (ground (arith, there, other)) now e in
        elim (Bool-cases (is_due env (r.bucket_list i'))) [
          | inl now' ↦ (
            frame_at (r.bucket_list i') ++ before,
            behind,
            rw (now', more)
                (sym (
                  append_assoc (frame_at (r.bucket_list i')) before
                    (hand_over (r.bucket_list i) frame ∷ behind))),
          )
          | inr later ↦ (before, behind, rw later more)
        ]
  ]
