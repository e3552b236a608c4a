-- ===== src/Receiver/Passes.antt =====
-- What one pass over the buckets delivers, in both modes of delivery.
use efp.Prelude.{
  ℕ, ◌≡◌, sym, ap, ◌∙◌, arith, Bool, true, false, not, ◌&&◌, ◌||◌, Option, none, some, List, [],
  ◌∷◌, ◌++◌, ◌>>=◌, leb, ◌==◌, if◌then◌else◌, Bool-cases, inl, inr,
}
use mathlib.Core.List.{append_assoc, append-nil}
use efp.Receiver.{ElasticFrameProtocolReceiver, Bucket}
use efp.Frames.{SuperFrame, Env}
use efp.Receiver.Deliver.{is_complete, hand_over, assemble, Pass, Verdict, judge, pass_loop}

-- Every entry points to a bucket with a frame.
pub data Stocked (r : ElasticFrameProtocolReceiver) : List (ℕ × ℕ) → Type 0 where
  empty : Stocked r []
  entry :
      {key i : ℕ} {rest : List (ℕ × ℕ)} (frame : SuperFrame)
      → (r.bucket_list i).bucket_data ≡ some frame
      → Stocked r rest
      → Stocked r ((key, i) ∷ rest)

abbrev pub keys : List (ℕ × ℕ) → List ℕ
keys [] = []
keys ((key, i) ∷ rest) = key ∷ keys rest

-- The frames of some entries, as they are handed over.
abbrev pub frame_at : Bucket → List SuperFrame
frame_at b = elim b.bucket_data [ none ↦ [] | some frame ↦ hand_over b frame ∷ [] ]

abbrev pub frames : ElasticFrameProtocolReceiver → List (ℕ × ℕ) → List SuperFrame
frames r [] = []
frames r ((key, i) ∷ rest) = frame_at (r.bucket_list i) ++ frames r rest

-- Complete, or timed out.
abbrev pub is_due : Env → Bucket → Bool
is_due env b = leb b.timeout env.now || is_complete b

abbrev pub due : Env → ElasticFrameProtocolReceiver → List (ℕ × ℕ) → List (ℕ × ℕ)
due env r [] = []
due env r ((key, i) ∷ rest) =
    if is_due env (r.bucket_list i) then (key, i) ∷ due env r rest else due env r rest

-- A pass with some more entries delivered.
abbrev pub passed_on : ElasticFrameProtocolReceiver → Pass → ℕ → List (ℕ × ℕ) → Pass
passed_on r p next m = record p {
  next_expected = next;
  delivered = p.delivered ++ frames r m;
  delete_list = p.delete_list ++ keys m;
}

pub passed_none :
    (r : ElasticFrameProtocolReceiver) (p : Pass) → passed_on r p p.next_expected [] ≡ p
passed_none r p = rw (append-nil p.delivered, append-nil p.delete_list)

pub assemble_lem :
    (b : Bucket) (frame : SuperFrame)
    → b.bucket_data ≡ some frame
    → (assemble b ≡ some (hand_over b frame)) × (frame_at b ≡ hand_over b frame ∷ [])
unfolding assemble
assemble_lem b frame e = (
  ap (λ (o : Option SuperFrame). o >>= (λ f. some (hand_over b f))) e,
  ap (λ (o : Option SuperFrame). elim o [ none ↦ [] | some f ↦ hand_over b f ∷ [] ]) e,
)

-- Delivering one more entry, then others.
pub passed_on-cons :
    (r : ElasticFrameProtocolReceiver) (p : Pass) (next next' key i : ℕ) (frame : SuperFrame)
    (m : List (ℕ × ℕ))
    → frame_at (r.bucket_list i) ≡ frame ∷ []
    → passed_on r
        (record p {
          next_expected = next;
          delivered = p.delivered ++ (frame ∷ []);
          delete_list = p.delete_list ++ (key ∷ []);
        })
        next'
        m
      ≡ passed_on r p next' ((key, i) ∷ m)
passed_on-cons r p next next' key i frame m e = rw (
  e,
  append_assoc p.delivered (frame ∷ []) (frames r m),
  append_assoc p.delete_list (key ∷ []) (keys m),
)

module _ (env : Env) (r : ElasticFrameProtocolReceiver) (start : Bool) where
  judge_flat :
      (next : ℕ) (b : Bucket)
      → (r.head_of_line_blocking_timeout_ms == 0) ≡ true
      → judge env r.head_of_line_blocking_timeout_ms next b
        ≡ (if is_due env b then Verdict.deliver next else Verdict.skip)
  unfolding judge
  judge_flat next b flat = rw flat

  step_flat :
      (key i : ℕ) (rest : List (ℕ × ℕ)) (p : Pass) (frame : SuperFrame)
      → (r.head_of_line_blocking_timeout_ms == 0) ≡ true
      → assemble (r.bucket_list i) ≡ some frame
      → pass_loop env r start ((key, i) ∷ rest) p ≡ (
          if is_due env (r.bucket_list i)
          then pass_loop env r start rest (record p {
            delivered = p.delivered ++ (frame ∷ []);
            delete_list = p.delete_list ++ (key ∷ []);
          })
          else pass_loop env r start rest p)
  unfolding pass_loop
  step_flat key i rest p frame flat e =
      let free : p.first_run && (not (r.head_of_line_blocking_timeout_ms == 0) && not start)
          ≡ false =
        ground (arith, flat) in
      let headless : p.first_run && not (r.head_of_line_blocking_timeout_ms == 0) ≡ false =
        ground (arith, flat) in
      let verdict = judge_flat p.next_expected (r.bucket_list i) flat in
      elim (Bool-cases (is_due env (r.bucket_list i))) [
        | inl now ↦ rw (free, headless, verdict, now, e, headless)
        | inr later ↦ rw (free, headless, verdict, later, headless)
      ]

  -- With no head-of-line time, a pass over buckets that all have a frame goes through the whole map:
  -- it delivers exactly the frames that are complete or timed out, in the order of the map, and lists
  -- exactly their keys for deletion.
  pub pass_loop_flat :
      (m : List (ℕ × ℕ)) (p : Pass)
      → (r.head_of_line_blocking_timeout_ms == 0) ≡ true
      → Stocked r m
      → pass_loop env r start m p ≡ some (passed_on r p p.next_expected (due env r m))
  unfolding pass_loop
  pass_loop_flat [] p flat empty = ap some (sym (passed_none r p))
  pass_loop_flat ((key, i) ∷ rest) p flat (entry frame e more) =
      let (made, at_i) = assemble_lem (r.bucket_list i) frame e in
      step_flat key i rest p (hand_over (r.bucket_list i) frame) flat made
      ∙ elim (Bool-cases (is_due env (r.bucket_list i))) [
        | inl now ↦ rw now (
            pass_loop_flat rest _ flat more
            ∙ ap some (
                passed_on-cons r p p.next_expected p.next_expected key i
                  (hand_over (r.bucket_list i) frame) (due env r rest) at_i))
        | inr later ↦ rw later (pass_loop_flat rest p flat more)
      ]
