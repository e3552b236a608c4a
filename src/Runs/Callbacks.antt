-- ===== src/Runs/Callbacks.antt =====
-- A frame with a section in front of its payload, passed on to the functions of the C API.
use efp.Prelude.{none, ◌+◌, ◌≡◌, refl, arith, true, some, [], ◌∷◌}
use efp.Embedded.{read}
use efp.Embedded.RoundTrip.{Section, no_more, add_all, of_list}
use efp.Embedded.Loop.{holding}
use efp.Frames.{SuperFrame}
use efp.Receiver.GotData.{Callbacks, got_data, payload_call}
use efp.Receiver.Callbacks.{
  calls_of, behind_sections, got_data-add_all, got_data-in_frame, got_data-short,
}
use efp.Runs.Sections.{plain}

abbrev both_set : Callbacks
both_set = record { receive = some 5; receive_embedded_data = some 6; context = some 77 }

abbrev pmt : Section
pmt = record { content = 2; bytes = 9 ∷ 8 ∷ 7 ∷ [] }

abbrev with_pmt : SuperFrame
with_pmt = holding plain (add_all 0xcc (pmt ∷ []) (5 ∷ 6 ∷ []))

got_data-add_all_example :
    (got_data both_set with_pmt
      ≡ some (record {
        embedded = calls_of 6 77 1000 (pmt ∷ []);
        payload = some (behind_sections 5 with_pmt 77 (5 ∷ 6 ∷ []));
      }))
    × ((behind_sections 5 with_pmt 77 (5 ∷ 6 ∷ [])).frame_data
        ≡ some (of_list (add_all 0xcc (pmt ∷ []) (5 ∷ 6 ∷ []))))
    × (read
          (of_list (add_all 0xcc (pmt ∷ []) (5 ∷ 6 ∷ [])))
          (behind_sections 5 with_pmt 77 (5 ∷ 6 ∷ [])).offset
          (behind_sections 5 with_pmt 77 (5 ∷ 6 ∷ [])).size
        ≡ some (5 ∷ 6 ∷ []))
got_data-add_all_example =
    got_data-add_all both_set 5 6 77 0xcc plain pmt [] (5 ∷ 6 ∷ []) refl refl refl refl refl
      (record { content_legal = omega arith; content_fits = omega arith; size_fits = omega arith })
      no_more (omega arith)

-- The broken frame is passed on whole.
abbrev broken_pmt : SuperFrame
broken_pmt = record with_pmt { broken = true }

got_data-in_frame_example :
    ((payload_call 5 broken_pmt 0 77).offset + (payload_call 5 broken_pmt 0 77).size
      ≡ broken_pmt.frame_size)
    × ((payload_call 5 broken_pmt 0 77).frame_data ≡ broken_pmt.frame_data)
unfolding got_data
got_data-in_frame_example =
    got_data-in_frame both_set broken_pmt
      (record { embedded = []; payload = some (payload_call 5 broken_pmt 0 77) })
      (payload_call 5 broken_pmt 0 77) refl refl

got_data-short_example : got_data both_set (holding plain (0x81 ∷ 0 ∷ 5 ∷ [])) ≡ none
got_data-short_example =
    got_data-short both_set 5 6 plain (0x81 ∷ 0 ∷ 5 ∷ []) refl refl refl refl (omega arith)
