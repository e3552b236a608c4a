-- ===== src/CApi/Handles.antt =====
-- The life of a handle.
use efp.Prelude.{
  ℕ, ◌+◌, ◌-◌, ◌%◌, ◌^◌, ◌≤◌, ◌<◌, ◌≡◌, refl, sym, ap, ◌∙◌, arith, true, false, Option, none, some,
  List, lookup, insert, erase, ◌==◌, if◌then◌else◌, lookup-insert, lookup-erase, Option-cases, inl,
  inr, if_true, if_false,
}
use efp.Message.{ElasticFrameMessages}
use efp.Sender.{Request, new_sender}
use efp.Receiver.{threaded, run_to_completion, new_receiver}
use efp.CApi.{
  SendBase, ReceiveBase, CApi, insert_new, efp_mode_run_to_complete, receive_mode, efp_init_send,
  efp_init_receive, efp_send_data, efp_end_send,
}

-- No handle from the next one on is in use.
pub record Unused (api : CApi) : Type 0 where
  pub senders : (k : ℕ) → api.c_object_handle ≤ k → lookup k api.efp_send_base_map ≡ none
  pub receivers : (k : ℕ) → api.c_object_handle ≤ k → lookup k api.efp_receive_base_map ≡ none

lookup-insert_new {ℓ} :
    {V : Type ℓ} (key other : ℕ) (value : V) (m : List (ℕ × V))
    → lookup key m ≡ none
    → lookup other (insert_new key value m) ≡ (if key == other then some value else lookup other m)
unfolding insert_new
lookup-insert_new {V = V} key other value m e =
    ap (λ (o : Option V). lookup other (elim o [ none ↦ insert key value m | some old ↦ m ])) e
    ∙ lookup-insert m key value other

-- The handles that follow are still unused when one more is taken.
next-Unused :
    (api : CApi) (k : ℕ)
    → api.c_object_handle < 2 ^ 64 - 1
    → (api.c_object_handle + 1) % 2 ^ 64 ≤ k
    → (api.c_object_handle ≤ k) × ((api.c_object_handle == k) ≡ false)
next-Unused api k few le = (omega (arith, few, le), ground (arith, few, le))

-- What efp_init_send does to the handles.
pub record Starts (api : CApi) (mtu : ℕ) (f : Option ℕ) (ctx : ℕ) (after : ℕ × CApi) : Type 0 where
  pub started :
      lookup after.0 after.1.efp_send_base_map
      ≡ some (record { sender = new_sender (mtu % 65536); c_send_callback = f; context = ctx })
  pub was_free : lookup after.0 api.efp_send_base_map ≡ none
  pub others :
      (k : ℕ)
      → (after.0 == k) ≡ false
      → lookup k after.1.efp_send_base_map ≡ lookup k api.efp_send_base_map
  pub receivers : after.1.efp_receive_base_map ≡ api.efp_receive_base_map
  pub after-Unused : Unused after.1

-- While the handles have not run out, efp_init_send returns a handle that was not in use, behind which
-- stand a new sender for the lowest 16 bits of the MTU, the send function and the context; all other
-- handles of senders and all handles of receivers stay as they were, and no handle from the next one on
-- is in use.
pub efp_init_send-Starts :
    (api : CApi) (mtu : ℕ) (f : Option ℕ) (ctx : ℕ)
    → Unused api
    → api.c_object_handle < 2 ^ 64 - 1
    → Starts api mtu f ctx (efp_init_send api mtu f ctx)
unfolding efp_init_send
efp_init_send-Starts api mtu f ctx v few =
    let h : ℕ = api.c_object_handle in
    let base : SendBase = record {
      sender = new_sender (mtu % 65536);
      c_send_callback = f;
      context = ctx;
    } in
    let free : lookup h api.efp_send_base_map ≡ none = v.senders h (omega arith) in
    let found = λ (k : ℕ). lookup-insert_new h k base api.efp_send_base_map free in
    let self : (h == h) ≡ true = ground arith in
    record {
      started = found h ∙ if_true self _;
      was_free = free;
      others = λ k e. found k ∙ if_false e _;
      receivers = refl;
      after-Unused = record {
        senders = λ k le.
            let (later, other) = next-Unused api k few le in
            found k ∙ (if_false other _ ∙ v.senders k later);
        receivers = λ k le. v.receivers k (next-Unused api k few le).0;
      };
    }

-- What efp_init_receive does to the handles.
pub record StartsReceiver (api : CApi) (base : ReceiveBase) (after : ℕ × CApi) : Type 0 where
  pub started : lookup after.0 after.1.efp_receive_base_map ≡ some base
  pub was_free : lookup after.0 api.efp_receive_base_map ≡ none
  pub others :
      (k : ℕ)
      → (after.0 == k) ≡ false
      → lookup k after.1.efp_receive_base_map ≡ lookup k api.efp_receive_base_map
  pub senders : after.1.efp_send_base_map ≡ api.efp_send_base_map
  pub after-Unused : Unused after.1

-- While the handles have not run out, efp_init_receive returns a handle that was not in use, behind
-- which stand a new receiver with the given times, in RUN_TO_COMPLETION mode exactly when that is asked
-- for, both functions and the context; all other handles of receivers and all handles of senders stay
-- as they were, and no handle from the next one on is in use.
pub efp_init_receive-Starts :
    (api : CApi) (bucket_timeout hol_timeout : ℕ) (f g : Option ℕ) (ctx mode : ℕ)
    → Unused api
    → api.c_object_handle < 2 ^ 64 - 1
    → StartsReceiver api
        (record {
          receiver =
              new_receiver bucket_timeout hol_timeout
                (if mode == efp_mode_run_to_complete then run_to_completion else threaded);
          callbacks = record { receive = f; receive_embedded_data = g; context = some ctx };
        })
        (efp_init_receive api bucket_timeout hol_timeout f g ctx mode)
unfolding efp_init_receive
efp_init_receive-Starts api bucket_timeout hol_timeout f g ctx mode v few =
    let h : ℕ = api.c_object_handle in
    let base : ReceiveBase = record {
      receiver = new_receiver bucket_timeout hol_timeout (receive_mode mode);
      callbacks = record { receive = f; receive_embedded_data = g; context = some ctx };
    } in
    let free : lookup h api.efp_receive_base_map ≡ none = v.receivers h (omega arith) in
    let found = λ (k : ℕ). lookup-insert_new h k base api.efp_receive_base_map free in
    let self : (h == h) ≡ true = ground arith in
    record {
      started = found h ∙ if_true self _;
      was_free = free;
      others = λ k e. found k ∙ if_false e _;
      senders = refl;
      after-Unused = record {
        senders = λ k le. v.senders k (next-Unused api k few le).0;
        receivers = λ k le.
            let (later, other) = next-Unused api k few le in
            found k ∙ (if_false other _ ∙ v.receivers k later);
      };
    }

-- Once efp_end_send has returned for a handle, sending on the handle and ending it again are undefined
-- behaviour: the result of find is used without a comparison with end.
pub efp_end_send_lem :
    (api after : CApi) (h : ℕ) (m : ElasticFrameMessages) (q : Request)
    → efp_end_send api h ≡ some (m, after)
    → (efp_send_data after h q ≡ none) × (efp_end_send after h ≡ none)
unfolding efp_end_send efp_send_data
efp_end_send_lem api after h m q e = elim (Option-cases (lookup h api.efp_send_base_map)) [
  | inl missing ↦ absurd (ground (arith, e, missing))
  | inr (s, there) ↦
      let self : (h == h) ≡ true = ground arith in
      let same : record api { efp_send_base_map = erase h api.efp_send_base_map } ≡ after =
        ground (arith, e, there) in
      let gone : lookup h after.efp_send_base_map ≡ none =
        ap (λ (x : CApi). lookup h x.efp_send_base_map) (sym same)
        ∙ lookup-erase api.efp_send_base_map h h
        ∙ if_true self _ in
      (rw gone, rw gone)
]
