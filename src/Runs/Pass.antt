-- ===== src/Runs/Pass.antt =====
-- A pass over a complete bucket and one that still waits.
use efp.Prelude.{ℕ, ◌≡◌, refl, true, false, some, List, [], ◌∷◌, update, ◌==◌}
use efp.Receiver.{ElasticFrameProtocolReceiver, Bucket}
use efp.Receiver.Deliver.{Pass, pass_loop}
use efp.Receiver.Passes.{Stocked, empty, entry, passed_on, due, pass_loop_flat}
use efp.Receiver.HeadOfLine.{Fresh, fresh_none, fresh_entry, in_line, next_behind, pass_loop_line}
use efp.Runs.{clock, receiver50}
use efp.Runs.Sections.{plain}

abbrev pub full_bucket : Bucket
full_bucket = record {
  active = true;
  data_content = 4;
  saved_super_frame_no = 1;
  timeout = 9000;
  fragment_counter = 2;
  of_fragment_no = 2;
  delivery_order = 1;
  fragment_size = 2;
  pts = 1000;
  dts = 900;
  code = 7;
  stream = 3;
  source = 9;
  flags = 0;
  have_received_fragment = λ i. true;
  bucket_data = some plain;
}

abbrev pub waiting_bucket : Bucket
waiting_bucket = record full_bucket { fragment_counter = 1; delivery_order = 2 }

abbrev pub two_buckets : List (ℕ × ℕ)
two_buckets = (1, 1) ∷ (2, 2) ∷ []

unfoldable pub receiver_two : ElasticFrameProtocolReceiver
unfolding receiver50
receiver_two = record receiver50 {
  bucket_map = two_buckets;
  super_frame_first_time = false;
  super_frame_recalc = 2;
  old_super_frame_number = 2;
  bucket_list = update (update receiver50.bucket_list 1 full_bucket) 2 waiting_bucket;
}

unfoldable pub receiver_line : ElasticFrameProtocolReceiver
unfolding receiver_two
receiver_line = record receiver_two { head_of_line_blocking_timeout_ms = 20 }

abbrev second_run : Pass
second_run = record { first_run = false; next_expected = 1; delivered = []; delete_list = [] }

two-Stocked : Stocked receiver_two two_buckets
unfolding receiver_two
two-Stocked = entry plain refl (entry plain refl empty)

pub two_no_hol : (receiver_two.head_of_line_blocking_timeout_ms == 0) ≡ true
unfolding receiver_two receiver50
two_no_hol = refl

pass_loop_flat_example :
    pass_loop clock receiver_two true two_buckets second_run
    ≡ some (passed_on receiver_two second_run 1 (due clock receiver_two two_buckets))
pass_loop_flat_example =
    pass_loop_flat clock receiver_two true two_buckets second_run two_no_hol two-Stocked

line-Stocked : Stocked receiver_line two_buckets
unfolding receiver_two receiver_line
line-Stocked = entry plain refl (entry plain refl empty)

line-Fresh : Fresh clock receiver_line two_buckets
unfolding receiver_two receiver_line
line-Fresh = fresh_entry refl (fresh_entry refl fresh_none)

line_hol : (receiver_line.head_of_line_blocking_timeout_ms == 0) ≡ false
unfolding receiver_line
line_hol = refl

pass_loop_line_example :
    pass_loop clock receiver_line true two_buckets second_run
    ≡ some (
        passed_on receiver_line second_run
          (next_behind receiver_line 1 two_buckets)
          (in_line receiver_line 1 two_buckets))
pass_loop_line_example =
    pass_loop_line clock receiver_line true two_buckets second_run line_hol refl line-Stocked
      line-Fresh
