-- ===== src/Runs/Handles.antt =====
-- A handle of the C API, from its start to its end.
use efp.Prelude.{◌==◌, if◌then◌else◌, ◌≡◌, refl, arith, none, some, [], ◌∷◌, lookup, erase}
use efp.Message.{no_error}
use efp.Receiver.{threaded, run_to_completion, new_receiver}
use efp.CApi.{
  SendBase, CApi, efp_mode_run_to_complete, efp_init_receive, efp_init_send, efp_send_data,
  efp_end_send,
}
use efp.CApi.Handles.{
  Unused, Starts, StartsReceiver, efp_init_receive-Starts, efp_init_send-Starts, efp_end_send_lem,
}
use efp.Sender.{new_sender, refusal}
use efp.CApi.Sending.{SendsOn, efp_init_send-efp_send_data}
use efp.Runs.{sender255, request250}

abbrev no_handles : CApi
no_handles = record { efp_receive_base_map = []; efp_send_base_map = []; c_object_handle = 1 }

no_handles-Unused : Unused no_handles
unfolding lookup
no_handles-Unused = record { senders = λ k h. refl; receivers = λ k h. refl }

efp_init_send-Starts_example :
    Starts no_handles 1500 (some 4) 77 (efp_init_send no_handles 1500 (some 4) 77)
efp_init_send-Starts_example =
    efp_init_send-Starts no_handles 1500 (some 4) 77 no_handles-Unused (omega arith)

efp_init_receive-Starts_example :
    StartsReceiver no_handles
      (record {
        receiver =
            new_receiver 50 0
              (if 2 == efp_mode_run_to_complete then run_to_completion else threaded);
        callbacks = record { receive = some 5; receive_embedded_data = none; context = some 77 };
      })
      (efp_init_receive no_handles 50 0 (some 5) none 77 2)
efp_init_receive-Starts_example =
    efp_init_receive-Starts no_handles 50 0 (some 5) none 77 2 no_handles-Unused (omega arith)

abbrev base255 : SendBase
base255 = record { sender = sender255; c_send_callback = some 4; context = 77 }

abbrev one_handle : CApi
one_handle = record no_handles { efp_send_base_map = (1, base255) ∷ []; c_object_handle = 2 }

abbrev ended : CApi
ended = record one_handle { efp_send_base_map = [] }

one_handle_ends : efp_end_send one_handle 1 ≡ some (no_error, ended)
unfolding efp_end_send lookup erase
one_handle_ends = refl

efp_end_send_lem_example : (efp_send_data ended 1 request250 ≡ none) × (efp_end_send ended 1 ≡ none)
efp_end_send_lem_example = efp_end_send_lem one_handle ended 1 no_error request250 one_handle_ends

new_sender_passes : refusal (new_sender 255) request250 ≡ none
unfolding refusal new_sender
new_sender_passes = refl

efp_init_send-efp_send_data_example :
    let x = efp_init_send no_handles 255 (some 4) 77 in
    SendsOn no_handles x.0 4 77 (new_sender 255) request250 (efp_send_data x.1 x.0 request250)
efp_init_send-efp_send_data_example =
    efp_init_send-efp_send_data no_handles 255 4 77 request250 no_handles-Unused (omega arith)
      (omega arith) (omega arith) new_sender_passes
