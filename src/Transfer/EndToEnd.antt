-- ===== src/Transfer/EndToEnd.antt =====
-- From packAndSendFromPtr to the assembled frame, over a network that reorders and repeats packets.
use efp.Prelude.{
  ℕ, suc, ◌+◌, ◌<◌, ◌≡◌, sym, ap, ◌∙◌, arith, true, none, some, List, [], ◌∷◌, ◌++◌, length,
  get_elem?, subst, insert,
}
use efp.Sender.{ElasticFrameProtocolSender, Request, Sending, refusal, pack_and_send_from_ptr}
use efp.Sender.Packets.{packets}
use efp.Sender.Complete.{IsSender, Sends, pack_and_send-Sends}
use efp.Message.{ElasticFrameMessages}
use efp.Receiver.{ElasticFrameProtocolReceiver, super_frame_recalculator}
use efp.Frames.{SuperFrame, Env}
use efp.Receiver.Deliver.{receiver_worker_round, delivery_worker_round, pop_front}
use efp.Transfer.Delivery.{Restores}
use efp.Transfer.Handover.{worker-HandsOver}
use efp.Transfer.{Frame, IsFragment, last_no}
use efp.Transfer.Opening.{Grants}
use efp.Transfer.Receiving.{Free, slot}
use efp.Transfer.Run.{Arrival, Carry, done, next, occurs, Arrives, reassemble, receive_all}
use efp.Transfer.FromSender.{IsRequest, frame_of, frame_of-IsFrame}
use efp.Transfer.InOrder.{InOrder-length, InOrder-get, packets-InOrder}

-- The arrivals are sent packets, each by its place in the list of those sent.
pub data Network (sent : List (List ℕ × ℕ)) : List Arrival → List ℕ → Type 0 where
  quiet : Network sent [] []
  passes :
      {a : Arrival} {arrivals : List Arrival} {places : List ℕ} (k stream : ℕ)
      → get_elem? sent k ≡ some (a.packet, stream)
      → Network sent arrivals places
      → Network sent (a ∷ arrivals) (k ∷ places)

Network-Carry :
    (s : ElasticFrameProtocolSender) (q : Request)
    → IsSender s
    → IsRequest q
    → refusal s q ≡ none
    → {arrivals : List Arrival} {places : List ℕ} → Network (packets s q) arrivals places
    → Carry (frame_of s q) arrivals places
Network-Carry s q v k e quiet = done
Network-Carry s q v k e (passes {a = a} i stream here rest) =
    let f : IsFragment (frame_of s q) a.packet (0 + i) =
      InOrder-get (frame_of s q) i (a.packet, stream) (packets-InOrder s q v k e) here in
    next (subst (λ (n : ℕ). IsFragment (frame_of s q) a.packet n) (omega arith) f)
      (Network-Carry s q v k e rest)

-- Nothing waits at the receiver, and no head-of-line time is set.
pub record Idle (r : ElasticFrameProtocolReceiver) : Type 0 where
  pub no_entry : r.bucket_map ≡ []
  pub no_frame : r.super_frame_queue ≡ []
  pub no_hol : r.head_of_line_blocking_timeout_ms ≡ 0

-- The calls, then a round of the worker thread and one of the delivery thread.
pub record Delivers (g : Frame) (env : Env) (r : ElasticFrameProtocolReceiver)
    (arrivals : List Arrival) : Type 0 where
  pub messages : List ElasticFrameMessages
  pub received : ElasticFrameProtocolReceiver
  pub queued : ElasticFrameProtocolReceiver
  pub frame : SuperFrame
  pub receives : receive_all r arrivals ≡ some (messages, received)
  pub queues : receiver_worker_round env received ≡ some queued
  pub hands_over : (delivery_worker_round queued).0 ≡ some frame
  pub restored : Restores g frame
  pub none_left : (delivery_worker_round queued).1.super_frame_queue ≡ []
  pub no_entry_left : queued.bucket_map ≡ []

popped :
    (r : ElasticFrameProtocolReceiver) (s : SuperFrame)
    → r.super_frame_queue ≡ s ∷ []
    → ((delivery_worker_round r).0 ≡ some s) × ((delivery_worker_round r).1.super_frame_queue ≡ [])
unfolding delivery_worker_round pop_front
popped r s e = (
  ap (λ (l : List SuperFrame). (pop_front r l).0) e,
  ap (λ (l : List SuperFrame). (pop_front r l).1.super_frame_queue) e,
)

-- A frame that arrived at an idle receiver goes through the queue to the callback.
Arrives-Delivers :
    (g : Frame) (env : Env) (r : ElasticFrameProtocolReceiver) (arrivals : List Arrival)
    (numbers : List ℕ)
    → Idle r
    → Arrives g r arrivals numbers
    → Delivers g env r arrivals
unfolding insert
Arrives-Delivers g env r arrivals numbers idle x =
    let h =
      worker-HandsOver env x.after x.frame (super_frame_recalculator r g.number).0 (slot g)
        (record {
          entry =
              x.entries_are
              ∙ ap (insert (super_frame_recalculator r g.number).0 (slot g)) idle.no_entry;
          complete = x.complete;
          assembled = x.assembled;
          no_hol = x.kept.timeout ∙ idle.no_hol;
        }) in
    let queue : h.after.super_frame_queue ≡ x.frame ∷ [] =
      h.queue ∙ ap (λ (l : List SuperFrame). l ++ (x.frame ∷ [])) (x.kept.queue ∙ idle.no_frame) in
    record {
      messages = _;
      received = x.after;
      queued = h.after;
      frame = x.frame;
      receives = x.result;
      queues = h.result;
      hands_over = (popped h.after x.frame queue).0;
      restored = x.restored;
      none_left = (popped h.after x.frame queue).1;
      no_entry_left = h.cleared;
    }

-- A sender in good order sends a request that no guard refuses, and each packet that it sent reaches
-- the receiver at least once, in any order: no call of the receiver fails, each one answers whether
-- its fragment was there already, and once all have arrived the bucket of the frame is complete and
-- the frame that it makes has the data, the time stamps, the code, the content type, the stream and
-- the upper flags of the request, and is not marked broken. The receiver is threaded and running, its
-- bucket for the number is free and did not just deliver it, and the first call gets its memory.
pub end_to_end :
    (s : ElasticFrameProtocolSender) (q : Request) (x : Sending) (r : ElasticFrameProtocolReceiver)
    (a : Arrival) (arrivals : List Arrival) (places : List ℕ)
    → IsSender s
    → IsRequest q
    → refusal s q ≡ none
    → pack_and_send_from_ptr s q ≡ some x
    → Network x.sent (a ∷ arrivals) places
    → ((k : ℕ) → k < length x.sent → occurs k places ≡ true)
    → Free (frame_of s q) r
    → Grants a.env
    → Arrives (frame_of s q) r (a ∷ arrivals) places
end_to_end s q x r a arrivals places v k e ex net all free grants =
    let sends : Sends s q (pack_and_send_from_ptr s q) = pack_and_send-Sends s q v e in
    let sent : x.sent ≡ packets s q = some_sent x _ (sym ex ∙ sends.result) in
    let count : 0 + length (packets s q) ≡ suc (last_no (frame_of s q)) =
      InOrder-length (frame_of s q) (packets-InOrder s q v k e) in
    reassemble (frame_of s q) (frame_of-IsFrame s q v k e) r a arrivals places
      (Network-Carry s q v k e
        (subst (λ (ps : List (List ℕ × ℕ)). Network ps (a ∷ arrivals) places) sent net))
      (λ i h. all i (omega (arith, h, count, ap (length {A = List ℕ × ℕ}) sent))) free grants
  where
    some_sent : (y z : Sending) → some y ≡ some z → y.sent ≡ z.sent
    some_sent y z h = ground (arith, h)

-- Under the same conditions, at a receiver where nothing waits and with no head-of-line time: behind
-- the last packet, one round of the worker thread and one of the delivery thread hand the callback
-- the frame of the request, intact, and leave the queue and the map of buckets empty.
pub delivered_once :
    (s : ElasticFrameProtocolSender) (q : Request) (x : Sending) (r : ElasticFrameProtocolReceiver)
    (a : Arrival) (arrivals : List Arrival) (places : List ℕ) (env : Env)
    → IsSender s
    → IsRequest q
    → refusal s q ≡ none
    → pack_and_send_from_ptr s q ≡ some x
    → Network x.sent (a ∷ arrivals) places
    → ((k : ℕ) → k < length x.sent → occurs k places ≡ true)
    → Free (frame_of s q) r
    → Grants a.env
    → Idle r
    → Delivers (frame_of s q) env r (a ∷ arrivals)
delivered_once s q x r a arrivals places env v k e ex net all free grants idle =
    Arrives-Delivers (frame_of s q) env r (a ∷ arrivals) places idle
      (end_to_end s q x r a arrivals places v k e ex net all free grants)
