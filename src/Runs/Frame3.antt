-- ===== src/Runs/Frame3.antt =====
-- A frame of two packets at a receiver, packet by packet.
use efp.Prelude.{ℕ, ◌<◌, ◌≡◌, refl, arith, Bool, true, false, some, [], ◌∷◌, ◌++◌, ap, ◌∙◌, update}
use efp.Prelude.Bytes.{holds_below, holds_below_lem}
use efp.Message.{no_error}
use efp.Receiver.{new_bucket, super_frame_recalculator}
use efp.Wire.{encode_type1, encode_type2}
use efp.Receiver.{Bucket}
use efp.Frames.{SuperFrame}
use efp.Receiver.Deliver.{assemble, is_complete}
use efp.Transfer.Accepting.{Accepts, accept_next, answer_to, claimed}
use efp.Transfer.Claiming.{accept_first}
use efp.Transfer.Delivery.{Restores, complete-Restores, all_complete}
use efp.Transfer.{Frame, IsFrame, full, last, header1, header2, part}
use efp.Transfer.Opening.{Grants, first}
use efp.Transfer.Receiving.{Free, bucket_of}
use efp.Transfer.Run.{Arrival, next, done, occurs, Arrives, reassemble}
use efp.Runs.{clock, receiver50}

-- Three bytes in fragments of two.
abbrev frame3 : Frame
frame3 = record {
  content = 11 ∷ 12 ∷ 13 ∷ [];
  number = 8193;
  flags = 0x20;
  stream_id = 3;
  data_content = 4;
  pts = 1000;
  dts = 900;
  code = 7;
  fragment_size = 2;
  whole = 1;
  tail = 1;
  has_type3 = false;
  padding = record { behind_content = 7; behind_packet_size = 0 };
}

frame3-IsFrame : IsFrame frame3
frame3-IsFrame = record {
  total = refl;
  tail_fits = omega arith;
  tail_needed = λ e. absurd (ground (arith, e));
  fragment_size_fits = omega arith;
  count_fits = omega arith;
  number_fits = omega arith;
  flags_fit = omega arith;
  stream_fits = omega arith;
  content_fits = omega arith;
  pts_fits = omega arith;
  dts_near = omega arith;
  dts_fits = omega arith;
  code_fits = omega arith;
}

abbrev first3 : Arrival
first3 = record {
  env = clock;
  packet = encode_type1 (header1 frame3 0) ++ part frame3 0 2;
  source = 9;
}

abbrev last3 : Arrival
last3 = record {
  env = clock;
  packet = encode_type2 frame3.padding (header2 frame3) ++ part frame3 2 1;
  source = 9;
}

receiver50-Free3 : Free frame3 receiver50
unfolding receiver50 super_frame_recalculator new_bucket
receiver50-Free3 = record {
  running = record { worker = refl; delivery = refl; mode = refl };
  idle = refl;
  unseen = λ e. absurd (omega (arith, e));
}

clock-Grants : Grants clock
clock-Grants = record { every = λ size. refl }

both_occur : holds_below (λ k. occurs k (1 ∷ 0 ∷ [])) 2 ≡ true
unfolding holds_below occurs
both_occur = refl

reassemble_example : Arrives frame3 receiver50 (last3 ∷ first3 ∷ []) (1 ∷ 0 ∷ [])
reassemble_example =
    reassemble frame3 frame3-IsFrame receiver50 last3 (first3 ∷ []) (1 ∷ 0 ∷ [])
      (next last (next (full 0 (omega arith)) done)) (λ i h. holds_below_lem _ both_occur h)
      receiver50-Free3 clock-Grants

abbrev opened3 :
    Accepts frame3 clock receiver50 last3.packet 9 no_error (first 1) (claimed frame3 receiver50)
opened3 = accept_first frame3 frame3-IsFrame clock receiver50 9 last receiver50-Free3 clock-Grants

accept_next_example :
    Accepts frame3 clock opened3.after first3.packet 9
      (answer_to (first 1 0))
      (update (first 1) 0 true)
      opened3.after.bucket_map
accept_next_example =
    accept_next frame3 frame3-IsFrame clock opened3.after 9 (full 0 (omega arith)) opened3.holds

abbrev filled3 :
    Accepts frame3 clock opened3.after first3.packet 9
      (answer_to (first 1 0))
      (update (first 1) 0 true)
      opened3.after.bucket_map
filled3 =
    accept_next frame3 frame3-IsFrame clock opened3.after 9 (full 0 (omega arith)) opened3.holds

abbrev bucket3 : Bucket
bucket3 = bucket_of filled3.after frame3

both_first : (i : ℕ) → i < 2 → update (first 1) 0 true i ≡ true
both_first i h = ground arith

bucket3_complete : is_complete bucket3 ≡ true
bucket3_complete =
    all_complete frame3 bucket3 filled3.holds.collected
      (λ i h. ap (λ (k : ℕ → Bool). k i) filled3.holds.received_is ∙ both_first i h)

complete-Restores_example : (s : SuperFrame) × (assemble bucket3 ≡ some s) × Restores frame3 s
complete-Restores_example =
    complete-Restores frame3 bucket3 filled3.holds.collected frame3-IsFrame bucket3_complete
