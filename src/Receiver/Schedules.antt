-- ===== src/Receiver/Schedules.antt =====
-- What holds of a receiver with its threads on every schedule.
use efp.Prelude.{
  ℕ, ◌≡◌, refl, sym, ap, ◌∙◌, subst, arith, true, ◌||◌, some, List, [], ◌++◌, length, ◌==◌,
  some_same,
}
use mathlib.Core.List.{append_assoc, append-nil}
use efp.Receiver.{ElasticFrameProtocolReceiver, EfpReceiverMode, is_threaded, new_receiver}
use efp.Frames.{SuperFrame, Env}
use efp.Receiver.Deliver.{receiver_worker_round, delivery_worker_round}
use efp.Receiver.Threads.{turn}
use efp.Receiver.Invariant.{Outside, outside, IsReceiver, new_receiver-IsReceiver}
use efp.Receiver.Passes.{frames}
use efp.Receiver.Rounds.{receiver_worker_round-Round, delivery_worker_round_lem}
use efp.Receiver.Keeping.Packet.{receive_fragment-IsReceiver, receive_fragment-outside}
use efp.Receiver.System.{
  System, handed_by, Step, arrive, work, hand, stop, worker_ends, delivery_ends, Run, start, later,
  new_system,
}

-- The frames handed over and those that wait, in their order.
abbrev pub trail : System → List SuperFrame
trail s = s.handed ++ s.receiver.super_frame_queue

pub record IsSystem (s : System) : Type 0 where
  pub in_order : IsReceiver s.receiver
  pub has_threads : is_threaded s.receiver.current_mode ≡ true

-- What a step leads to: a system in order, with more behind its trail.
pub record Leads (s t : System) : Type 0 where
  pub still : IsSystem t
  pub more : List SuperFrame
  pub extends : trail t ≡ trail s ++ more

nothing_new : (s t : System) → IsSystem t → trail t ≡ trail s → Leads s t
nothing_new s t v e = record { still = v; more = []; extends = e ∙ sym (append-nil (trail s)) }

mode_is :
    (r r2 : ElasticFrameProtocolReceiver)
    → outside r2 ≡ outside r
    → is_threaded r2.current_mode ≡ is_threaded r.current_mode
mode_is r r2 e = ap (λ (w : Outside). is_threaded w.current_mode) e

Step-Leads : (s t : System) → IsSystem s → Step s t → Leads s t
Step-Leads s t v (arrive env p source out bytes e) =
    let (none_delivered, same) =
      receive_fragment-outside s.receiver v.in_order env p source out bytes v.has_threads e in
    nothing_new s t
      (record {
        in_order = receive_fragment-IsReceiver s.receiver v.in_order env p source out bytes e;
        has_threads = mode_is s.receiver out.receiver same ∙ v.has_threads;
      })
      (ap (λ (l : List SuperFrame). (s.handed ++ l) ++ out.receiver.super_frame_queue)
          none_delivered
        ∙ ap (λ (l : List SuperFrame). l ++ out.receiver.super_frame_queue) (append-nil s.handed)
        ∙ ap (λ (w : Outside). s.handed ++ w.super_frame_queue) same)
Step-Leads s t v (work grants sample r active e) =
    let env : Env = record { now = (turn s.time_reference sample).time_now; grants = grants } in
    let (picks, x) = receiver_worker_round-Round env s.receiver v.in_order in
    let same : x.after ≡ r = some_same x.after r (sym (x.goes) ∙ e) in
    subst
      (λ y.
        Leads s (record s {
          receiver = y;
          time_reference = (turn s.time_reference sample).time_reference;
        }))
      same
      (record {
        still = record {
          in_order = x.still;
          has_threads =
              ap (λ (w : Outside). is_threaded w.current_mode) x.outside_is ∙ v.has_threads;
        };
        more = frames s.receiver picks;
        extends =
            ap (λ (w : Outside). s.handed ++ w.super_frame_queue) x.outside_is
            ∙ sym (append_assoc s.handed s.receiver.super_frame_queue (frames s.receiver picks));
      })
Step-Leads s t v (hand active ready) =
    let (in_order, taken, mode) = delivery_worker_round_lem s.receiver v.in_order in
    nothing_new s t
      (record {
        in_order = in_order;
        has_threads = ap (λ (m : EfpReceiverMode). is_threaded m) mode ∙ v.has_threads;
      })
      (append_assoc s.handed (handed_by (delivery_worker_round s.receiver).0)
          (delivery_worker_round s.receiver).1.super_frame_queue
        ∙ ap (λ (l : List SuperFrame). s.handed ++ l) taken)
Step-Leads s t v stop =
    nothing_new s t
      (record {
        in_order = record {
          kept = v.in_order.kept;
          bits_are = v.in_order.bits_are;
          awake = ground arith;
        };
        has_threads = v.has_threads;
      })
      refl
Step-Leads s t v (worker_ends off) =
    nothing_new s t
      (record {
        in_order = record {
          kept = v.in_order.kept;
          bits_are = v.in_order.bits_are;
          awake = v.in_order.awake;
        };
        has_threads = v.has_threads;
      })
      refl
Step-Leads s t v (delivery_ends off) =
    nothing_new s t
      (record {
        in_order = record {
          kept = v.in_order.kept;
          bits_are = v.in_order.bits_are;
          awake = v.in_order.awake;
        };
        has_threads = v.has_threads;
      })
      refl

-- On every schedule of packets, whole or damaged, of rounds of the two threads in any order and at any
-- time, and of stopping, a receiver in order with threads stays in order, and what was handed over,
-- followed by what waits in the queue, only grows at its end: no frame that the worker queued is lost,
-- handed over twice or overtaken.
pub run-Leads : (s t : System) → IsSystem s → Run s t → Leads s t
run-Leads s t v start = nothing_new s s v refl
run-Leads s t v (later {t = u} runs step) =
    let before = run-Leads s u v runs in
    let last = Step-Leads u t before.still step in
    record {
      still = last.still;
      more = before.more ++ last.more;
      extends =
          last.extends
          ∙ ap (λ (l : List SuperFrame). l ++ last.more) before.extends
          ∙ append_assoc (trail s) before.more last.more;
    }

-- On every schedule from a new receiver with threads, a round of the worker thread can always be done,
-- without undefined behaviour and whatever the clock shows, and while frames wait for the delivery
-- thread the flag that wakes it is set.
pub run-safe :
    (bucket_timeout hol_timeout time_reference : ℕ) (t : System) (env : Env)
    → Run (new_system bucket_timeout hol_timeout time_reference) t
    → ((r : ElasticFrameProtocolReceiver) × (receiver_worker_round env t.receiver ≡ some r))
      × (length t.receiver.super_frame_queue == 0 || t.receiver.super_frame_ready ≡ true)
unfolding new_receiver
run-safe bucket_timeout hol_timeout time_reference t env runs =
    let s = new_system bucket_timeout hol_timeout time_reference in
    let first : IsSystem s = record {
      in_order = new_receiver-IsReceiver bucket_timeout hol_timeout EfpReceiverMode.threaded;
      has_threads = refl;
    } in
    let v = (run-Leads s t first runs).still.in_order in
    let (picks, x) = receiver_worker_round-Round env t.receiver v in ((x.after, x.goes), v.awake)
