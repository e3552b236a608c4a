-- ===== src/Transfer/Among.antt =====
-- From packAndSendFromPtr to the callback at a receiver where other frames wait too.
use efp.Prelude.{
  ℕ, ◌<◌, ◌≡◌, refl, sym, ap, ◌∙◌, arith, true, none, some, List, [], ◌∷◌, ◌++◌, length, ◌==◌,
  lookup, lookup-insert, some_same, some_second, bind_some, subst,
}
use efp.Prelude.Bytes.{AllBytes}
use efp.Sender.{ElasticFrameProtocolSender, Request, Sending, refusal, pack_and_send_from_ptr}
use efp.Sender.Complete.{IsSender}
use efp.Message.{ElasticFrameMessages}
use efp.Receiver.{ElasticFrameProtocolReceiver, super_frame_recalculator}
use efp.Frames.{SuperFrame, Env}
use efp.Receiver.Deliver.{hand_over, receiver_worker_round}
use efp.Receiver.Receive.{receive_fragment_from_ptr}
use efp.Receiver.Threads.{delivery_worker}
use efp.Receiver.Invariant.{Outside, IsReceiver}
use efp.Receiver.Passes.{is_due, due, frames, assemble_lem}
use efp.Receiver.Keeping.Packet.{receive_fragment-IsReceiver}
use efp.Receiver.Flat.{receiver_worker_round-flat, due-contains, due_frame}
use efp.Receiver.Deadline.{delivery_worker_lem}
use efp.Transfer.{Frame}
use efp.Transfer.Delivery.{Restores}
use efp.Transfer.Opening.{Grants}
use efp.Transfer.Receiving.{Free, slot}
use efp.Transfer.Run.{Arrival, Arrives, occurs, receive_all}
use efp.Transfer.FromSender.{IsRequest, frame_of}
use efp.Transfer.EndToEnd.{Network, end_to_end}

-- The arrivals are packets of bytes.
pub data OfBytes : List Arrival → Type 0 where
  all_read : OfBytes []
  then_bytes :
      {a : Arrival} {rest : List Arrival} → AllBytes a.packet → OfBytes rest → OfBytes (a ∷ rest)

receive_all-IsReceiver :
    (arrivals : List Arrival) (r after : ElasticFrameProtocolReceiver)
    (messages : List ElasticFrameMessages)
    → IsReceiver r
    → OfBytes arrivals
    → receive_all r arrivals ≡ some (messages, after)
    → IsReceiver after
unfolding receive_all
receive_all-IsReceiver [] r after messages v all_read e = subst IsReceiver (some_second _ _ e) v
receive_all-IsReceiver (a ∷ rest) r after messages v (then_bytes bytes more) e =
    let (x, received, e1) = bind_some (receive_fragment_from_ptr a.env r a.packet a.source) _ e in
    let ((messages1, after1), others, e2) = bind_some (receive_all x.receiver rest) _ e1 in
    let v1 = receive_fragment-IsReceiver r v a.env a.packet a.source x bytes received in
    subst IsReceiver (some_second _ _ e2)
      (receive_all-IsReceiver rest x.receiver after1 messages1 v1 more others)

-- The calls, a round of the worker thread, and a round of the delivery thread for each frame queued.
pub record DeliversAmong (g : Frame) (env : Env) (r : ElasticFrameProtocolReceiver)
    (arrivals : List Arrival) : Type 0 where
  pub messages : List ElasticFrameMessages
  pub received : ElasticFrameProtocolReceiver
  pub queued : ElasticFrameProtocolReceiver
  pub frame : SuperFrame
  pub before : List SuperFrame
  pub behind : List SuperFrame
  pub receives : receive_all r arrivals ≡ some (messages, received)
  pub queues : receiver_worker_round env received ≡ some queued
  pub hands_over :
      (delivery_worker (length queued.super_frame_queue) queued).0
      ≡ r.super_frame_queue ++ (before ++ (frame ∷ behind))
  pub restored : Restores g frame
  pub gone : lookup (super_frame_recalculator r g.number).0 queued.bucket_map ≡ none
  pub still : IsReceiver queued

Arrives-DeliversAmong :
    (g : Frame) (env : Env) (r : ElasticFrameProtocolReceiver) (arrivals : List Arrival)
    (numbers : List ℕ)
    → IsReceiver r
    → OfBytes arrivals
    → (r.head_of_line_blocking_timeout_ms == 0) ≡ true
    → Arrives g r arrivals numbers
    → DeliversAmong g env r arrivals
Arrives-DeliversAmong g env r arrivals numbers v bytes flat x =
    let order = (super_frame_recalculator r g.number).0 in
    let i = slot g in
    let v1 = receive_all-IsReceiver arrivals r x.after _ v bytes x.result in
    let flat1 : (x.after.head_of_line_blocking_timeout_ms == 0) ≡ true =
      ap (λ (t : ℕ). t == 0) x.kept.timeout ∙ flat in
    let there : lookup order x.after.bucket_map ≡ some i =
      ap (lookup order) x.entries_are ∙ ground (arith, lookup-insert r.bucket_map order i order) in
    let b = x.after.bucket_list i in
    let holds = v1.kept.entry_holds order i there in
    let now : is_due env b ≡ true = ground (arith, x.complete) in
    let y = receiver_worker_round-flat env x.after v1 flat1 in
    let (before, behind, among) =
      due_frame env x.after order i holds.frame x.after.bucket_map there now holds.has_frame in
    let same : hand_over b holds.frame ≡ x.frame =
      some_same _ _ (sym (assemble_lem b holds.frame holds.has_frame).0 ∙ x.assembled) in
    let queue : y.after.super_frame_queue ≡ r.super_frame_queue ++ (before ++ (x.frame ∷ behind)) =
      ap (λ (w : Outside). w.super_frame_queue) y.outside_is
      ∙ ap (λ (l : List SuperFrame). l ++ frames x.after (due env x.after x.after.bucket_map))
          x.kept.queue
      ∙ ap (λ (l : List SuperFrame). r.super_frame_queue ++ l) among
      ∙ ap (λ (f : SuperFrame). r.super_frame_queue ++ (before ++ (f ∷ behind))) same in
    record {
      messages = _;
      received = x.after;
      queued = y.after;
      frame = x.frame;
      before = before;
      behind = behind;
      receives = x.result;
      queues = y.goes;
      hands_over = (delivery_worker_lem y.after.super_frame_queue y.after refl).0 ∙ queue;
      restored = x.restored;
      gone =
          ground
            (arith, y.left_is order, due-contains env x.after order i x.after.bucket_map there now);
      still = y.still;
    }

-- A sender in good order sends a request that no guard refuses, and each packet that it sent reaches,
-- at least once and in any order, a running receiver in order, without a head-of-line time, at which
-- any other frames wait in buckets and in the queue, and whose bucket for the frame is free and did
-- not just deliver it; the packets are bytes and the first call gets its memory. Then no call fails,
-- and behind one round of the worker thread as many rounds of the delivery thread as frames wait hand
-- over the frames queued before, and among those behind them the frame of the request, intact; its
-- number is out of the map, and the receiver is in order.
pub delivered_among :
    (s : ElasticFrameProtocolSender) (q : Request) (x : Sending) (r : ElasticFrameProtocolReceiver)
    (a : Arrival) (arrivals : List Arrival) (places : List ℕ) (env : Env)
    → IsSender s
    → IsRequest q
    → refusal s q ≡ none
    → pack_and_send_from_ptr s q ≡ some x
    → Network x.sent (a ∷ arrivals) places
    → ((k : ℕ) → k < length x.sent → occurs k places ≡ true)
    → Free (frame_of s q) r
    → Grants a.env
    → IsReceiver r
    → OfBytes (a ∷ arrivals)
    → (r.head_of_line_blocking_timeout_ms == 0) ≡ true
    → DeliversAmong (frame_of s q) env r (a ∷ arrivals)
delivered_among s q x r a arrivals places env v k e ex net all free grants order bytes flat =
    Arrives-DeliversAmong (frame_of s q) env r (a ∷ arrivals) places order bytes flat
      (end_to_end s q x r a arrivals places v k e ex net all free grants)
