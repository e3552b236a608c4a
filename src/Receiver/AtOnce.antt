-- ===== src/Receiver/AtOnce.antt =====
-- RUN_TO_COMPLETION mode without a head-of-line time: the pass behind each packet.
use efp.Prelude.{
  ℕ, ◌≡◌, ap, ◌∙◌, arith, true, false, Option, none, some, List, ◌==◌, if◌then◌else◌, Bool-cases,
  inl, inr, lookup,
}
use efp.Receiver.{ElasticFrameProtocolReceiver, Bucket}
use efp.Frames.{SuperFrame, Env}
use efp.Receiver.Deliver.{run_to_completion_method}
use efp.Receiver.Invariant.{IsReceiver}
use efp.Receiver.Passes.{keys, frames, is_due, due}
use efp.Receiver.Clearing.{contains}
use efp.Receiver.Flat.{flat-Passing, due-contains}

-- The pass delivers what is due at once, and nothing that is due is left.
pub record AtOnce (env : Env) (r : ElasticFrameProtocolReceiver)
    (o : Option (List SuperFrame × ElasticFrameProtocolReceiver)) : Type 0 where
  pub after : ElasticFrameProtocolReceiver
  pub goes : o ≡ some (frames r (due env r r.bucket_map), after)
  pub still : IsReceiver after
  pub left_is :
      (key : ℕ)
      → lookup key after.bucket_map
        ≡ (if contains key (keys (due env r r.bucket_map)) then none else lookup key r.bucket_map)
  pub none_due :
      (key i : ℕ)
      → lookup key after.bucket_map ≡ some i
      → (after.bucket_list i ≡ r.bucket_list i) × (is_due env (after.bucket_list i) ≡ false)

-- At a receiver in order and without a head-of-line time runToCompletionMethod never fails: it hands
-- the frames that are complete or over their time, and no others, to the receive function, in the
-- order of their numbers, takes exactly these out of the map, leaves the receiver in order, and every
-- bucket that is left in use is untouched, incomplete and within its time.
pub run_to_completion_method-AtOnce :
    (env : Env) (r : ElasticFrameProtocolReceiver)
    → IsReceiver r
    → (r.head_of_line_blocking_timeout_ms == 0) ≡ true
    → AtOnce env r (run_to_completion_method env r)
unfolding run_to_completion_method
run_to_completion_method-AtOnce env r v flat =
    let x = flat-Passing env r true v flat in
    record {
      after = x.after;
      goes = x.goes;
      still = x.still;
      left_is = x.left_is;
      none_due = λ key i there.
          let stays = x.others_stay key i there in
          let before : lookup key r.bucket_map ≡ some i = ground (arith, x.left_is key, there) in
          (
            stays,
            ap (λ (b : Bucket). is_due env b) stays
                ∙ elim (Bool-cases (is_due env (r.bucket_list i))) [
                  | inr later ↦ later
                  | inl now ↦
                      let taken = due-contains env r key i r.bucket_map before now in
                      absurd (ground (arith, x.left_is key, there, taken))
                ],
          );
    }
