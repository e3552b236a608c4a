-- ===== src/Runs/Among.antt =====
-- The frame of Runs among two others that wait.
use efp.Prelude.{ℕ, ◌≡◌, refl, arith, Bool, true, ◌&&◌, List, [], ◌∷◌, ltb}
use efp.Prelude.Bytes.{le_value, AllBytes, no_bytes, one_byte, holds_below_lem}
use efp.Receiver.{super_frame_recalculator, new_receiver, new_bucket}
use efp.Sender.{cut, type2_header}
use efp.Sender.Buffer.{type1_header}
use efp.Wire.{stale, encode_type1, encode_type2}
use efp.Sender.Packets.{packets}
use efp.Transfer.Receiving.{Free}
use efp.Transfer.FromSender.{frame_of, frame_in}
use efp.Transfer.Among.{all_read, then_bytes, DeliversAmong, delivered_among}
use efp.Runs.{
  clock, receiver50, sender255, request250, sending250, sends250, sent250, second_first, then_rest,
  sender255-IsSender, request250-IsRequest, request250_passes, reversed-Network, reversed_all,
  sent250_count,
}
use efp.Runs.Pass.{receiver_two, two_no_hol}
use efp.Runs.Rounds.{two-IsReceiver}

abbrev are_bytes : List ℕ → Bool
are_bytes [] = true
are_bytes (b ∷ rest) = ltb b 256 && are_bytes rest

are_bytes-AllBytes : (l : List ℕ) → are_bytes l ≡ true → AllBytes l
are_bytes-AllBytes [] e = no_bytes
are_bytes-AllBytes (b ∷ rest) e =
    one_byte (ground (arith, e)) (are_bytes-AllBytes rest (ground (arith, e)))

sent_bytes : (are_bytes (sent250 0) ≡ true) × (are_bytes (sent250 1) ≡ true)
unfolding packets sender255 cut encode_type1 type1_header encode_type2 type2_header stale le_value
sent_bytes = (refl, refl)

two-Free : Free (frame_of sender255 request250) receiver_two
unfolding receiver_two receiver50 new_receiver frame_of sender255 super_frame_recalculator frame_in
    new_bucket
two-Free = record {
  running = record { worker = refl; delivery = refl; mode = refl };
  idle = refl;
  unseen = λ e. absurd (omega (arith, e));
}

delivered_among_example :
    DeliversAmong (frame_of sender255 request250) clock receiver_two (second_first ∷ then_rest)
delivered_among_example =
    delivered_among sender255 request250 sending250 receiver_two second_first then_rest
      (1 ∷ 0 ∷ 1 ∷ []) clock sender255-IsSender request250-IsRequest request250_passes
      sends250.result reversed-Network
      (λ k h. holds_below_lem _ reversed_all (omega (arith, h, sent250_count))) two-Free
      (record { every = λ size. refl }) two-IsReceiver
      (then_bytes (are_bytes-AllBytes (sent250 1) sent_bytes.1) (
        then_bytes (are_bytes-AllBytes (sent250 0) sent_bytes.0)
          (then_bytes (are_bytes-AllBytes (sent250 1) sent_bytes.1) all_read)))
      two_no_hol
