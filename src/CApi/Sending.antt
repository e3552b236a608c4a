-- ===== src/CApi/Sending.antt =====
-- A frame sent on a handle of the C API, up to the calls of its send function.
use efp.Prelude.{
  ℕ, suc, zero, ◌+◌, ◌-◌, ◌%◌, ◌^◌, ◌≤◌, ◌<◌, ◌≡◌, refl, ap, ◌∙◌, arith, true, false, Option, none,
  some, List, [], ◌∷◌, length, lookup, insert, lookup-insert, if_true, if_false, ltb, ◌==◌,
}
use efp.Message.{ElasticFrameMessages, no_error}
use efp.Sender.{ElasticFrameProtocolSender, Request, new_sender, refusal, zeros}
use efp.Sender.Packets.{packets}
use efp.Sender.Complete.{IsSender, pack_and_send-Sends}
use efp.CApi.{SendBase, CApi, efp_init_send, efp_send_data}
use efp.CApi.SendData.{SendCall, send_data, pass_on}
use efp.CApi.Handles.{Unused, efp_init_send-Starts}

length-zeros : (n : ℕ) → length (zeros n) ≡ n
length-zeros zero = refl
length-zeros (suc n) = ap (λ (k : ℕ). suc k) (length-zeros n)

-- A sender made for an MTU from 255 to 65535 is in good order.
pub new_sender-IsSender : (mtu : ℕ) → 255 ≤ mtu → mtu < 65536 → IsSender (new_sender mtu)
unfolding new_sender
new_sender-IsSender mtu low high =
    let big : ltb mtu 255 ≡ false = ground (arith, low) in
    rw big (record {
      mtu_low = low;
      mtu_high = high;
      buffer_full = length-zeros mtu;
      generator_fits = omega arith;
    })

-- The calls for some packets.
abbrev pub calls_for : ℕ → ℕ → List (List ℕ × ℕ) → List SendCall
calls_for f context [] = []
calls_for f context (x ∷ rest) =
    record { function = f; packet = x.0; stream_id = x.1; context = context }
    ∷ calls_for f context rest

pass_on_lem :
    (f context : ℕ) (l : List (List ℕ × ℕ))
    → pass_on (some f) (some context) l ≡ some (calls_for f context l)
unfolding pass_on send_data
pass_on_lem f context [] = refl
pass_on_lem f context (x ∷ rest) = rw (pass_on_lem f context rest) refl

-- What sending on a handle does: the calls of the send function, and the handles, compared with `api`.
pub record SendsOn (api : CApi) (h f context : ℕ) (s : ElasticFrameProtocolSender) (q : Request)
    (o : Option (ElasticFrameMessages × List SendCall × CApi)) : Type 0 where
  pub after : CApi
  pub sender : ElasticFrameProtocolSender
  pub result : o ≡ some (no_error, calls_for f context (packets s q), after)
  pub found :
      lookup h after.efp_send_base_map
      ≡ some (record { sender = sender; c_send_callback = some f; context = context })
  pub sender-IsSender : IsSender sender
  pub number_is : sender.super_frame_no_generator ≡ (s.super_frame_no_generator + 1) % 65536
  pub others :
      (k : ℕ) → (h == k) ≡ false → lookup k after.efp_send_base_map ≡ lookup k api.efp_send_base_map
  pub receivers : after.efp_receive_base_map ≡ api.efp_receive_base_map

pub efp_send_data-SendsOn :
    (api : CApi) (h f context : ℕ) (s : ElasticFrameProtocolSender) (q : Request)
    → lookup h api.efp_send_base_map
      ≡ some (record { sender = s; c_send_callback = some f; context = context })
    → IsSender s
    → refusal s q ≡ none
    → SendsOn api h f context s q (efp_send_data api h q)
unfolding efp_send_data
efp_send_data-SendsOn api h f context s q there v passes =
    let x = pack_and_send-Sends s q v passes in
    let self : (h == h) ≡ true = ground arith in
    let base : SendBase = record {
      sender = x.after;
      c_send_callback = some f;
      context = context;
    } in
    record {
      after = record api { efp_send_base_map = insert h base api.efp_send_base_map };
      sender = x.after;
      result = rw (there, x.result, pass_on_lem f context (packets s q)) refl;
      found = lookup-insert api.efp_send_base_map h base h ∙ if_true self _;
      sender-IsSender = x.after-IsSender;
      number_is = x.number;
      others = λ k other. lookup-insert api.efp_send_base_map h base k ∙ if_false other _;
      receivers = refl;
    }

-- On the handle that efp_init_send returns for an MTU from 255 to 65535 and a send function, while the
-- handles have not run out, efp_send_data answers noError to a frame that no guard refuses; that very
-- function gets all of the frame's packets, in order, each once and with its stream and the context
-- that efp_init_send was given; the handle goes on to the next frame number, its sender is in good
-- order for the next call, and both calls together change no other handle of a sender and none of a
-- receiver.
pub efp_init_send-efp_send_data :
    (api : CApi) (mtu f context : ℕ) (q : Request)
    → Unused api
    → api.c_object_handle < 2 ^ 64 - 1
    → 255 ≤ mtu
    → mtu < 65536
    → refusal (new_sender mtu) q ≡ none
    → let x = efp_init_send api mtu (some f) context in
      SendsOn api x.0 f context (new_sender mtu) q (efp_send_data x.1 x.0 q)
efp_init_send-efp_send_data api mtu f context q unused few low high passes =
    let x = efp_init_send api mtu (some f) context in
    let starts = efp_init_send-Starts api mtu (some f) context unused few in
    let whole : mtu % 65536 ≡ mtu = omega (arith, high) in
    let there : lookup x.0 x.1.efp_send_base_map
        ≡ some (record { sender = new_sender mtu; c_send_callback = some f; context = context }) =
      starts.started
      ∙ ap
          (λ (n : ℕ).
            some (record { sender = new_sender n; c_send_callback = some f; context = context }))
          whole in
    let y =
      efp_send_data-SendsOn x.1 x.0 f context (new_sender mtu) q there
        (new_sender-IsSender mtu low high) passes in
    record {
      after = y.after;
      sender = y.sender;
      result = y.result;
      found = y.found;
      sender-IsSender = y.sender-IsSender;
      number_is = y.number_is;
      others = λ k other. y.others k other ∙ starts.others k other;
      receivers = y.receivers ∙ starts.receivers;
    }
