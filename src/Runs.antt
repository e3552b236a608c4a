-- ===== src/Runs.antt =====
-- Runs of sender and receiver on concrete input, to which the theorems apply.
pub mod Frame3
pub mod Sections
pub mod Pass
pub mod Handles
pub mod Rounds
pub mod Schedule
pub mod Faults
pub mod Among
pub mod Threads
pub mod Callbacks
use efp.Prelude.{
  ℕ, zero, suc, ◌+◌, ◌<◌, ◌≡◌, refl, arith, Bool, true, false, none, some, List, [], ◌∷◌, ◌++◌,
  length, get_elem?, ap, ◌∙◌, update,
}
use efp.Prelude.Bytes.{holds_below, holds_below_lem}
use efp.Message.{no_error}
use efp.Sender.{
  ElasticFrameProtocolSender, Request, Sending, new_sender, next_super_frame, refusal, cut,
  pack_and_send_from_ptr, Sending,
}
use efp.Sender.Complete.{IsSender, Sends, pack_and_send-Sends}
use efp.Sender.Packets.{packets_with, packets}
use efp.Receiver.{
  ElasticFrameProtocolReceiver, new_receiver, new_bucket, threaded, super_frame_recalculator,
}
use efp.Frames.{Env}
use efp.Wire.{Padding, encode_type1, encode_type2}
use efp.Sender.Arithmetic.{IsCut, cut-IsCut}
use efp.Sender.InPlace.{destructive_pack_and_send_from_ptr}
use efp.Sender.Destructive.{bytes_sent}
use efp.Sender.Equivalence.{destructive_pack_and_send_lem}
use efp.Sender.SmallMtu.{small_mtu_faults}
use efp.Receiver.{Bucket}
use efp.Frames.{SuperFrame}
use efp.Receiver.Numbering.{recalculate_all, recalculate_all-inverts}
use efp.Receiver.Deliver.{assemble, is_complete}
use efp.Transfer.Accepting.{Accepts, accept_next, answer_to, claimed}
use efp.Transfer.Claiming.{accept_first}
use efp.Transfer.Delivery.{Restores, complete-Restores, all_complete}
use efp.Transfer.InOrder.{InOrder, packets-InOrder}
use efp.Transfer.{Frame, IsFrame, full, last, header1, header2, part}
use efp.Transfer.Dispatch.{Running}
use efp.Transfer.Opening.{Grants, first}
use efp.Transfer.Receiving.{Free, bucket_of}
use efp.Transfer.FromSender.{IsRequest, frame_of, frame_in}
use efp.Transfer.Run.{Arrival, Carry, next, done, occurs, Arrives, reassemble}
use efp.Transfer.EndToEnd.{Network, quiet, passes, end_to_end, Idle, Delivers, delivered_once}

abbrev bytes_from : ℕ → ℕ → List ℕ
bytes_from x zero = []
bytes_from x (suc n) = x ∷ bytes_from (x + 1) n

unfoldable pub sender255 : ElasticFrameProtocolSender
unfolding new_sender
sender255 = new_sender 255

pub sender255-IsSender : IsSender sender255
unfolding sender255
sender255-IsSender = record {
  mtu_low = omega arith;
  mtu_high = omega arith;
  buffer_full = refl;
  generator_fits = omega arith;
}

-- 250 bytes: one full fragment, and a last packet with three bytes.
abbrev pub request250 : Request
request250 = record {
  packet = bytes_from 0 250;
  data_content = 4;
  pts = 1000;
  dts = 900;
  code = 7;
  stream_id = 3;
  flags = 0;
}

pub request250-IsRequest : IsRequest request250
request250-IsRequest = record {
  content_fits = omega arith;
  pts_fits = omega arith;
  dts_fits = omega arith;
  code_fits = omega arith;
  stream_fits = omega arith;
  flags_fit = omega arith;
}

pub request250_passes : refusal sender255 request250 ≡ none
unfolding refusal sender255
request250_passes = refl

pack_and_send-Sends_example :
    Sends sender255 request250 (pack_and_send_from_ptr sender255 request250)
pack_and_send-Sends_example =
    pack_and_send-Sends sender255 request250 sender255-IsSender request250_passes

abbrev pub sends250 : Sends sender255 request250 (pack_and_send_from_ptr sender255 request250)
sends250 = pack_and_send-Sends sender255 request250 sender255-IsSender request250_passes

abbrev pub sending250 : Sending
sending250 = record {
  message = no_error;
  sender = sends250.after;
  sent = packets sender255 request250;
}

-- The packet that was sent at a place.
abbrev pub sent250 : ℕ → List ℕ
sent250 k = elim (get_elem? (packets sender255 request250) k) [ none ↦ [] | some x ↦ x.0 ]

abbrev pub clock : Env
clock = record { now = 5000; grants = λ size. true }

-- The last packet comes first, and once more at the end.
abbrev pub second_first : Arrival
second_first = record { env = clock; packet = sent250 1; source = 9 }

abbrev pub then_rest : List Arrival
then_rest = record { env = clock; packet = sent250 0; source = 9 } ∷ second_first ∷ []

unfoldable pub receiver50 : ElasticFrameProtocolReceiver
unfolding new_receiver
receiver50 = new_receiver 50 0 threaded

sent250_there :
    (get_elem? (packets sender255 request250) 0 ≡ some (sent250 0, 3))
    × (get_elem? (packets sender255 request250) 1 ≡ some (sent250 1, 3))
unfolding packets sender255 cut
sent250_there = (refl, refl)

pub reversed-Network : Network sending250.sent (second_first ∷ then_rest) (1 ∷ 0 ∷ 1 ∷ [])
reversed-Network =
    passes 1 3 sent250_there.1 (passes 0 3 sent250_there.0 (passes 1 3 sent250_there.1 quiet))

pub reversed_all : holds_below (λ k. occurs k (1 ∷ 0 ∷ 1 ∷ [])) 2 ≡ true
unfolding holds_below occurs
reversed_all = refl

pub sent250_count : length (packets sender255 request250) ≡ 2
unfolding packets sender255 cut
sent250_count = refl

receiver50-Free : Free (frame_of sender255 request250) receiver50
unfolding receiver50 frame_of sender255 super_frame_recalculator frame_in new_bucket
receiver50-Free = record {
  running = record { worker = refl; delivery = refl; mode = refl };
  idle = refl;
  unseen = λ e. absurd (omega (arith, e));
}

end_to_end_example :
    Arrives (frame_of sender255 request250) receiver50 (second_first ∷ then_rest) (1 ∷ 0 ∷ 1 ∷ [])
end_to_end_example =
    end_to_end sender255 request250 sending250 receiver50 second_first then_rest (1 ∷ 0 ∷ 1 ∷ [])
      sender255-IsSender request250-IsRequest request250_passes sends250.result reversed-Network
      (λ k h. holds_below_lem _ reversed_all (omega (arith, h, sent250_count))) receiver50-Free
      (record { every = λ size. refl })

receiver50-Idle : Idle receiver50
unfolding receiver50
receiver50-Idle = record { no_entry = refl; no_frame = refl; no_hol = refl }

delivered_once_example :
    Delivers (frame_of sender255 request250) clock receiver50 (second_first ∷ then_rest)
delivered_once_example =
    delivered_once sender255 request250 sending250 receiver50 second_first then_rest
      (1 ∷ 0 ∷ 1 ∷ []) clock sender255-IsSender request250-IsRequest request250_passes
      sends250.result reversed-Network
      (λ k h. holds_below_lem _ reversed_all (omega (arith, h, sent250_count))) receiver50-Free
      (record { every = λ size. refl }) receiver50-Idle

packets-InOrder_example : InOrder (frame_of sender255 request250) 0 (packets sender255 request250)
packets-InOrder_example =
    packets-InOrder sender255 request250 sender255-IsSender request250-IsRequest request250_passes

cut-IsCut_example : IsCut 255 475 (cut 255 475)
cut-IsCut_example = cut-IsCut 255 475 (omega arith) (omega arith) (omega arith)

request250_passes_100 : refusal (new_sender 100) request250 ≡ none
unfolding refusal new_sender
request250_passes_100 = refl

small_mtu_faults_example : pack_and_send_from_ptr (new_sender 100) request250 ≡ none
small_mtu_faults_example =
    small_mtu_faults 100 request250 (omega arith) (omega arith) request250_passes_100

-- A receiver that has just seen the number 65534.
abbrev receiver_wrap : ElasticFrameProtocolReceiver
receiver_wrap = record receiver50 {
  super_frame_first_time = false;
  super_frame_recalc = 65534;
  old_super_frame_number = 65534;
}

recalculate_all-inverts_example :
    recalculate_all receiver_wrap (65535 ∷ 1 ∷ 0 ∷ 3 ∷ []) ≡ 65535 ∷ 65537 ∷ 65536 ∷ 65539 ∷ []
recalculate_all-inverts_example =
    recalculate_all-inverts receiver_wrap 65534 (65535 ∷ 65537 ∷ 65536 ∷ 65539 ∷ [])
      (record { started = refl; number_is = refl; bits_are = refl })
      (
        omega arith,
        omega arith,
        omega arith,
        (
          omega arith,
          omega arith,
          omega arith,
          (
            omega arith,
            omega arith,
            omega arith,
            (omega arith, omega arith, omega arith, omega arith),
          ),
        ),
      )

destructive_pack_and_send_lem_example :
    (padding padding2 : Padding) × (memory : List ℕ) × (after : ElasticFrameProtocolSender)
    × (destructive_pack_and_send_from_ptr sender255 request250 (bytes_from 0 32)
        ≡ some (record {
          message = no_error;
          sender = next_super_frame sender255;
          memory = memory;
          sent = bytes_sent (packets_with padding sender255 request250);
        }))
    × (pack_and_send_from_ptr sender255 request250
        ≡ some (record {
          message = no_error;
          sender = after;
          sent = packets_with padding2 sender255 request250;
        }))
destructive_pack_and_send_lem_example =
    destructive_pack_and_send_lem sender255 request250 (bytes_from 0 32) sender255-IsSender
      request250_passes (omega arith)
