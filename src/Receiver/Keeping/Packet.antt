-- ===== src/Receiver/Keeping/Packet.antt =====
-- receiveFragmentFromPtr and the invariant of the receiver, in both modes.
use efp.Prelude.{
  ℕ, ◌≡◌, sym, ap, ◌∙◌, subst, arith, bit_and, Bool, true, false, not, ◌&&◌, Option, none, some,
  List, [], ◌∷◌, length, ltb, ◌==◌, if◌then◌else◌, bind_some, some_same, Bool-cases, inl, inr,
  ◌>>=◌,
}
use efp.Prelude.Bytes.{AllBytes}
use efp.Message.{
  ElasticFrameMessages, receiver_not_running, type0_frame, frame_size_mismatch, unknown_frame_type,
}
use efp.Wire.{type0, type1, type2, type3, type1_size, type2_size, type3_size}
use efp.Receiver.{ElasticFrameProtocolReceiver, EfpReceiverMode, is_threaded}
use efp.Frames.{Env}
use efp.Receiver.Unpack.Type1.{unpack_type1}
use efp.Receiver.Unpack.Type2.{unpack_type2}
use efp.Receiver.Unpack.Type3.{unpack_type3}
use efp.Receiver.Deliver.{run_to_completion_method}
use efp.Receiver.Receive.{Received, complete, receive_by_type, receive_fragment_from_ptr}
use efp.Receiver.Invariant.{Outside, outside, IsReceiver, Stands, stands, stands_again}
use efp.Receiver.Rounds.{pass_buckets-Passing}
use efp.Receiver.Keeping.{Answer, Keeps}
use efp.Receiver.Keeping.Receiving.{unpack_type1-Keeps, unpack_type2-Keeps, unpack_type3-Keeps}

-- If the call returns, the receiver is in order, and with threads nothing else was touched.
abbrev Leaves : ElasticFrameProtocolReceiver → Option Received → Type 0
Leaves r o =
    (out : Received)
    → o ≡ some out
    → IsReceiver out.receiver
      × (is_threaded r.current_mode ≡ true
          → (out.delivered ≡ []) × (outside out.receiver ≡ outside r))

module _ (r : ElasticFrameProtocolReceiver) (v : IsReceiver r) where
  leaves :
      (m : ElasticFrameMessages) (r2 : ElasticFrameProtocolReceiver)
      → Stands (outside r) r2
      → Leaves r (some (record { message = m; receiver = r2; delivered = [] }))
  leaves m r2 x out e =
      let same : record { message = m; receiver = r2; delivered = [] } ≡ out = some_same _ out e in
      (
        subst (λ y. IsReceiver y.receiver) same (stands_again r r2 v x),
        λ threads. (
          sym (ap (λ (y : Received). y.delivered) same),
          sym (ap (λ (y : Received). outside y.receiver) same) ∙ x.outside_is,
        ),
      )

  if-Leaves :
      (c : Bool) (x y : Option Received) → Leaves r x → Leaves r y → Leaves r (if c then x else y)
  if-Leaves true x y h k = h
  if-Leaves false x y h k = k

  -- The delivery pass of RUN_TO_COMPLETION mode keeps it too.
  complete-Leaves :
      (env : Env) (m : ElasticFrameMessages) (r2 : ElasticFrameProtocolReceiver)
      → Stands (outside r) r2
      → Leaves r (complete env (m, r2))
  unfolding complete run_to_completion_method
  complete-Leaves env m r2 x =
      let mode = ap (λ (w : Outside). w.current_mode) x.outside_is in
      elim (Bool-cases (is_threaded r2.current_mode)) [
        | inl threads ↦ rw threads (leaves m r2 x)
        | inr alone ↦
            let (picks, pass) = pass_buckets-Passing env r2 true (stands_again r r2 v x) in
            rw (alone, pass.goes)
              (λ out e. (
                subst (λ y. IsReceiver y.receiver) (some_same _ out e) pass.still,
                λ threads. absurd (
                    ground
                      (arith, alone, threads, ap (λ (m : EfpReceiverMode). is_threaded m) mode)),
              ))
      ]

  unpacked-Leaves : (env : Env) (o : Answer) → Keeps (outside r) o → Leaves r (o >>= complete env)
  unpacked-Leaves env o h out e =
      let (x, there, rest) = bind_some o _ e in complete-Leaves env x.0 x.1 (h x there) out rest

  by_type-Leaves :
      (env : Env) (p : List ℕ) (source kind : ℕ)
      → AllBytes p
      → Leaves r (receive_by_type env r kind p source)
  unfolding receive_by_type
  by_type-Leaves env p source kind bytes =
      let refuse = λ (m : ElasticFrameMessages). leaves m r (stands v) in
      if-Leaves (kind == type0) _ _ (refuse type0_frame) (
        if-Leaves (kind == type1) _ _
          (if-Leaves (ltb (length p) type1_size) _ _ (refuse frame_size_mismatch) (
            unpacked-Leaves env (unpack_type1 env r p source)
              (unpack_type1-Keeps env r p source (stands v) bytes)))
          (if-Leaves (kind == type2) _ _
            (if-Leaves (ltb (length p) type2_size) _ _ (refuse frame_size_mismatch) (
              unpacked-Leaves env (unpack_type2 env r p source)
                (unpack_type2-Keeps env r p source (stands v) bytes)))
            (if-Leaves (kind == type3) _ _
              (if-Leaves (ltb (length p) type3_size) _ _ (refuse frame_size_mismatch) (
                unpacked-Leaves env (unpack_type3 env r p source)
                  (unpack_type3-Keeps env r p source (stands v) bytes)))
              (refuse unknown_frame_type))))

  fragment-Leaves :
      (env : Env) (p : List ℕ) (source : ℕ)
      → AllBytes p
      → Leaves r (receive_fragment_from_ptr env r p source)
  unfolding receive_fragment_from_ptr
  fragment-Leaves env [] source bytes =
      if-Leaves
        (not (r.is_worker_thread_active && r.is_delivery_thread_active)
          && is_threaded r.current_mode)
        _ none (leaves receiver_not_running r (stands v)) (λ out e. absurd (ground (arith, e)))
  fragment-Leaves env (first ∷ rest) source bytes =
      if-Leaves
        (not (r.is_worker_thread_active && r.is_delivery_thread_active)
          && is_threaded r.current_mode)
        _ (receive_by_type env r (bit_and first 0x0f) (first ∷ rest) source)
        (leaves receiver_not_running r (stands v))
        (by_type-Leaves env (first ∷ rest) source (bit_and first 0x0f) bytes)

  -- Any packet of bytes, of any type, whole or damaged, that the receiver takes without undefined
  -- behaviour, whatever the answer is, leaves a receiver in order in order: the map and the buckets
  -- agree, the 64-bit number ends in the 16 bits seen last, and the delivery thread is awake if frames
  -- are queued.
  pub receive_fragment-IsReceiver :
      (env : Env) (p : List ℕ) (source : ℕ) (out : Received)
      → AllBytes p
      → receive_fragment_from_ptr env r p source ≡ some out
      → IsReceiver out.receiver
  receive_fragment-IsReceiver env p source out bytes e =
      (fragment-Leaves env p source bytes out e).0

  -- With threads, the call delivers nothing by itself, and touches neither the queue nor the flags.
  pub receive_fragment-outside :
      (env : Env) (p : List ℕ) (source : ℕ) (out : Received)
      → AllBytes p
      → is_threaded r.current_mode ≡ true
      → receive_fragment_from_ptr env r p source ≡ some out
      → (out.delivered ≡ []) × (outside out.receiver ≡ outside r)
  receive_fragment-outside env p source out bytes threads e =
      (fragment-Leaves env p source bytes out e).1 threads
