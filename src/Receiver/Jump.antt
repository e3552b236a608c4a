-- ===== src/Receiver/Jump.antt =====
-- Head-of-line mode when the first frame in line is over its time.
use efp.Prelude.{
  ℕ, ◌+◌, ◌%◌, ◌^◌, ◌≤◌, ◌≡◌, refl, sym, ap, ◌∙◌, arith, true, false, not, ◌&&◌, ◌||◌, none, some,
  List, [], ◌∷◌, ◌++◌, length, leb, ltb, ◌==◌, if◌then◌else◌, if_true, Bool-cases, inl, inr, lookup,
  ms_to_us, subst, Ascending, next_key,
}
use efp.Receiver.{ElasticFrameProtocolReceiver, Bucket}
use efp.Frames.{SuperFrame, Env}
use efp.Receiver.Deliver.{
  is_complete, hand_over, Pass, Verdict, judge, set_head, pass_loop, pass_buckets, has_timed_out,
  receiver_worker_round,
}
use efp.Receiver.Passes.{Stocked, entry, frames, keys, assemble_lem}
use efp.Receiver.HeadOfLine.{is_stale}
use efp.Receiver.Invariant.{Outside, IsReceiver}
use mathlib.Core.List.{append_assoc}
use efp.Receiver.Picking.{pick, Picked-behind, set_head_lem, Picks, pass_loop_picks, kept-Stocked}
use efp.Receiver.Clearing.{contains}
use efp.Receiver.Rounds.{Passing, first_pass, cleared, by_pass}

-- The number expected behind the frame.
abbrev pub number_behind : ℕ → Bucket → ℕ
number_behind next b =
    if (b.delivery_order == next) && is_complete b
    then (next + 1) % 2 ^ 64
    else (b.delivery_order + 1) % 2 ^ 64

judge_stale :
    (env : Env) (hol next : ℕ) (b : Bucket)
    → (hol == 0) ≡ false
    → leb (b.timeout + ms_to_us hol) env.now ≡ true
    → judge env hol next b ≡ Verdict.deliver (number_behind next b)
unfolding judge
judge_stale env hol next b line stale =
    elim (Bool-cases ((b.delivery_order == next) && is_complete b)) [
      | inl first ↦ rw (line, first) refl
      | inr other ↦ rw (line, other, stale) refl
    ]

module _ (env : Env) (r : ElasticFrameProtocolReceiver) where
  -- The pass takes the first entry, and goes on.
  jump :
      (key i : ℕ) (rest : List (ℕ × ℕ)) (s : Pass) (frame : SuperFrame)
      → (r.head_of_line_blocking_timeout_ms == 0) ≡ false
      → is_stale env r (r.bucket_list i) ≡ true
      → (r.bucket_list i).bucket_data ≡ some frame
      → Ascending 0 ((key, i) ∷ rest)
      → Stocked r ((key, i) ∷ rest)
      → (out : Pass) × (pass_loop env r true ((key, i) ∷ rest) s ≡ some out)
        × (x : Picks r 0 ((key, i) ∷ rest) s out) × (more : List (ℕ × ℕ)) × (x.picks
            ≡ (key, i) ∷ more)
  unfolding pass_loop lookup
  jump key i rest s frame line stale e (next_key above more) (entry frame' e' stocked) =
      let hol = r.head_of_line_blocking_timeout_ms in
      let b = r.bucket_list i in
      let c = s.first_run && not (hol == 0) in
      let s1 = if c then set_head r r.bucket_map s else s in
      let (made, at_i) = assemble_lem b frame e in
      let free : s.first_run && (not (hol == 0) && not true) ≡ false = ground (arith, line) in
      let (out, same, x) =
        pass_loop_picks env r true (key + 1) rest
          (record s1 {
            next_expected = number_behind s1.next_expected b;
            delivered = s1.delivered ++ (hand_over b frame ∷ []);
            delete_list = s1.delete_list ++ (key ∷ []);
          })
          more stocked in
      (
        out,
        rw (free, judge_stale env hol s1.next_expected b line stale, made) same,
        record {
          picks = (key, i) ∷ x.picks;
          picked =
              pick above (ground arith) (Picked-behind (key + 1) x.picks (omega arith) x.picked);
          delivered_is =
              x.delivered_is
              ∙ append_assoc s1.delivered (hand_over b frame ∷ []) (frames r x.picks)
              ∙ ap (λ (l : List SuperFrame). l ++ (hand_over b frame ∷ frames r x.picks))
                  (set_head_lem env r true c r.bucket_map s).0
              ∙ rw at_i refl;
          deletes =
              x.deletes
              ∙ append_assoc s1.delete_list (key ∷ []) (keys x.picks)
              ∙ ap (λ (l : List ℕ). l ++ (key ∷ keys x.picks))
                  (set_head_lem env r true c r.bucket_map s).1;
        },
        x.picks,
        refl,
      )

  -- The same for the map itself.
  abbrev Jumps : ℕ → ℕ → List (ℕ × ℕ) → Type 0
  Jumps key i m =
      (out : Pass) × (pass_loop env r true m (first_pass r) ≡ some out)
      × (x : Picks r 0 m (first_pass r) out) × (more : List (ℕ × ℕ)) × (x.picks ≡ (key, i) ∷ more)

  -- A bucket over its time lets a first run start.
  may_start :
      (key i : ℕ) (rest : List (ℕ × ℕ))
      → (r.bucket_list i).timeout + ms_to_us r.head_of_line_blocking_timeout_ms ≤ env.now
      → (ltb 1 (length ((key, i) ∷ rest)) || has_timed_out env r ((key, i) ∷ rest)) ≡ true
  unfolding has_timed_out
  may_start key i rest over = ground (arith, over)

  -- In head-of-line mode a round of the worker at a receiver in order, at which the time of the first
  -- frame in line and the head-of-line time are over, hands over that frame first of all, complete or
  -- not, marked broken exactly when fragments are missing, whether or not the line had begun, and
  -- takes it out of the map: a missing frame or fragment does not block the line for ever.
  pub receiver_worker_round-jump :
      (key i : ℕ) (rest : List (ℕ × ℕ)) (frame : SuperFrame)
      → IsReceiver r
      → (r.head_of_line_blocking_timeout_ms == 0) ≡ false
      → r.bucket_map ≡ (key, i) ∷ rest
      → (r.bucket_list i).bucket_data ≡ some frame
      → (r.bucket_list i).timeout + ms_to_us r.head_of_line_blocking_timeout_ms ≤ env.now
      → (r2 : ElasticFrameProtocolReceiver) × (behind : List SuperFrame) × (receiver_worker_round
            env r
          ≡ some r2)
        × (r2.super_frame_queue
            ≡ r.super_frame_queue ++ (hand_over (r.bucket_list i) frame ∷ behind))
        × (lookup key r2.bucket_map ≡ none)
        × IsReceiver r2
  receiver_worker_round-jump key i rest frame v line e there over =
      let stocked = kept-Stocked r 0 r.bucket_map v.kept.ascending v.kept.entry_holds in
      let (out, runs, x, more, first) = subst (Jumps key i) (sym e) (
        jump key i rest (first_pass r) frame line (ground (arith, over)) there
          (subst (Ascending 0) e v.kept.ascending) (subst (Stocked r) e stocked)) in
      let begins : (ltb 1 (length r.bucket_map) || has_timed_out env r r.bucket_map) ≡ true =
        ap (λ (m : List (ℕ × ℕ)). ltb 1 (length m) || has_timed_out env r m) e
        ∙ may_start key i rest over in
      let busy : length r.bucket_map == 0 ≡ false = ground (arith, ap (length {A = ℕ × ℕ}) e) in
      let taken : contains key (keys x.picks) ≡ true =
        ap (λ (m : List (ℕ × ℕ)). contains key (keys m)) first ∙ ground arith in
      let pass : Passing r x.picks
          (pass_buckets env r (ltb 1 (length r.bucket_map) || has_timed_out env r r.bucket_map)) =
        subst (λ c. Passing r x.picks (pass_buckets env r c)) (sym begins)
          (cleared env r true out v runs x) in
      let y = by_pass env r x.picks pass busy in
      let (made, at_i) = assemble_lem (r.bucket_list i) frame there in
      (
        y.after,
        frames r more,
        y.goes,
        ap (λ (o : Outside). o.super_frame_queue) y.outside_is
            ∙ ap (λ (m : List (ℕ × ℕ)). r.super_frame_queue ++ frames r m) first
            ∙ ap (λ (l : List SuperFrame). r.super_frame_queue ++ (l ++ frames r more)) at_i,
        y.left_is key ∙ if_true taken _,
        y.still,
      )
