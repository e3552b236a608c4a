-- ===== src/Receiver/HeadOfLine.antt =====
-- One pass in head-of-line mode while no bucket has waited too long.
use efp.Prelude.{
  ℕ, ◌+◌, ◌%◌, ◌^◌, ◌≡◌, sym, ap, ◌∙◌, arith, Bool, false, not, ◌&&◌, some, List, [], ◌∷◌, ◌++◌,
  leb, ◌==◌, if◌then◌else◌, ms_to_us, Bool-cases, inl, inr,
}
use efp.Receiver.{ElasticFrameProtocolReceiver, Bucket}
use efp.Frames.{SuperFrame, Env}
use efp.Receiver.Deliver.{is_complete, hand_over, assemble, Pass, Verdict, judge, pass_loop}
use efp.Receiver.Passes.{
  Stocked, empty, entry, passed_on, passed_none, passed_on-cons, assemble_lem,
}

-- The bucket's time and the head-of-line time are over.
abbrev pub is_stale : Env → ElasticFrameProtocolReceiver → Bucket → Bool
is_stale env r b = leb (b.timeout + ms_to_us r.head_of_line_blocking_timeout_ms) env.now

pub data Fresh (env : Env) (r : ElasticFrameProtocolReceiver) : List (ℕ × ℕ) → Type 0 where
  fresh_none : Fresh env r []
  fresh_entry :
      {key i : ℕ} {rest : List (ℕ × ℕ)}
      → is_stale env r (r.bucket_list i) ≡ false
      → Fresh env r rest
      → Fresh env r ((key, i) ∷ rest)

-- The bucket holds the number expected next, and is complete.
abbrev pub is_next : ℕ → Bucket → Bool
is_next next b = (b.delivery_order == next) && is_complete b

-- The entries at the front whose numbers follow one another from `next` on and that are complete.
abbrev pub in_line : ElasticFrameProtocolReceiver → ℕ → List (ℕ × ℕ) → List (ℕ × ℕ)
in_line r next [] = []
in_line r next ((key, i) ∷ rest) =
    let more = in_line r ((next + 1) % 2 ^ 64) rest in
    if is_next next (r.bucket_list i) then (key, i) ∷ more else []

-- The number expected behind them.
abbrev pub next_behind : ElasticFrameProtocolReceiver → ℕ → List (ℕ × ℕ) → ℕ
next_behind r next [] = next
next_behind r next ((key, i) ∷ rest) =
    let more = next_behind r ((next + 1) % 2 ^ 64) rest in
    if is_next next (r.bucket_list i) then more else next

module _ (env : Env) (r : ElasticFrameProtocolReceiver) (start : Bool) where
  judge_line :
      (next : ℕ) (b : Bucket)
      → (r.head_of_line_blocking_timeout_ms == 0) ≡ false
      → is_stale env r b ≡ false
      → judge env r.head_of_line_blocking_timeout_ms next b
        ≡ (if is_next next b then Verdict.deliver ((next + 1) % 2 ^ 64) else Verdict.block)
  unfolding judge
  judge_line next b hol young = rw (hol, young)

  step_line :
      (key i : ℕ) (rest : List (ℕ × ℕ)) (p : Pass) (frame : SuperFrame)
      → (r.head_of_line_blocking_timeout_ms == 0) ≡ false
      → p.first_run ≡ false
      → is_stale env r (r.bucket_list i) ≡ false
      → assemble (r.bucket_list i) ≡ some frame
      → pass_loop env r start ((key, i) ∷ rest) p ≡ (
          if is_next p.next_expected (r.bucket_list i)
          then pass_loop env r start rest (record p {
            next_expected = (p.next_expected + 1) % 2 ^ 64;
            delivered = p.delivered ++ (frame ∷ []);
            delete_list = p.delete_list ++ (key ∷ []);
          })
          else some p)
  unfolding pass_loop
  step_line key i rest p frame hol later young e =
      let free : p.first_run && (not (r.head_of_line_blocking_timeout_ms == 0) && not start)
          ≡ false =
        ground (arith, later) in
      let headless : p.first_run && not (r.head_of_line_blocking_timeout_ms == 0) ≡ false =
        ground (arith, later) in
      let verdict = judge_line p.next_expected (r.bucket_list i) hol young in
      elim (Bool-cases (is_next p.next_expected (r.bucket_list i))) [
        | inl now ↦ rw (free, headless, verdict, now, e, headless)
        | inr blocked ↦ rw (free, headless, verdict, blocked, headless)
      ]

  -- In head-of-line mode, behind the first run and with no bucket over its time and the head-of-line
  -- time: a pass over buckets that all have a frame delivers the complete frames at the front of the
  -- map whose numbers follow one another from the expected one on, nothing behind the first gap or
  -- incomplete frame, and expects the number behind the last one delivered.
  pub pass_loop_line :
      (m : List (ℕ × ℕ)) (p : Pass)
      → (r.head_of_line_blocking_timeout_ms == 0) ≡ false
      → p.first_run ≡ false
      → Stocked r m
      → Fresh env r m
      → pass_loop env r start m p
        ≡ some (passed_on r p (next_behind r p.next_expected m) (in_line r p.next_expected m))
  unfolding pass_loop
  pass_loop_line [] p hol later empty fresh_none = ap some (sym (passed_none r p))
  pass_loop_line ((key, i) ∷ rest) p hol later (entry frame e more) (fresh_entry young others) =
      let b = r.bucket_list i in
      let (made, at_i) = assemble_lem b frame e in
      step_line key i rest p (hand_over b frame) hol later young made
      ∙ elim (Bool-cases (is_next p.next_expected b)) [
        | inl now ↦ rw now (
            pass_loop_line rest _ hol later more others
            ∙ ap some (
                passed_on-cons r p ((p.next_expected + 1) % 2 ^ 64)
                  (next_behind r ((p.next_expected + 1) % 2 ^ 64) rest) key i (hand_over b frame)
                  (in_line r ((p.next_expected + 1) % 2 ^ 64) rest) at_i))
        | inr blocked ↦ rw blocked (ap some (sym (passed_none r p)))
      ]
