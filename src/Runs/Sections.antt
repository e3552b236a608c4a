-- ===== src/Runs/Sections.antt =====
-- Two sections of embedded data in front of a payload.
use efp.Prelude.{
  ℕ, List, ◌++◌, drop, ◌+◌, ◌-◌, ◌≡◌, refl, arith, true, false, none, some, [], ◌∷◌, length,
}
use efp.Message.{no_error}
use efp.Frames.{SuperFrame}
use efp.Embedded.{extract_embedded_data, extract_loop, add_embedded_data, efp_add_embedded_data}
use efp.Embedded.RoundTrip.{Section, no_more, one_more, add_all, of_list}
use efp.Embedded.Rounds.{out_of_rounds, extract_rounds_enough}
use efp.Embedded.Loop.{holding, extract-add_all}
use efp.Embedded.Adding.{efp_add_embedded_data_lem}

abbrev pmt : Section
pmt = record { content = 2; bytes = 9 ∷ 8 ∷ 7 ∷ [] }

abbrev private_section : Section
private_section = record { content = 1; bytes = [] }

abbrev pub plain : SuperFrame
plain = record {
  frame_size = 0;
  frame_data = none;
  data_content = 4;
  broken = false;
  pts = 1000;
  dts = 900;
  code = 7;
  stream_id = 3;
  source = 9;
  flags = 0x10;
  super_frame_no = 1;
}

extract-add_all_example :
    extract_embedded_data (holding plain (add_all 0xcc (pmt ∷ private_section ∷ []) (5 ∷ 6 ∷ []))) 0
    ≡ some (record {
      message = no_error;
      contents = 2 ∷ 1 ∷ [];
      sections = (9 ∷ 8 ∷ 7 ∷ []) ∷ [] ∷ [];
      payload_position = length (add_all 0xcc (pmt ∷ private_section ∷ []) (5 ∷ 6 ∷ [])) - 2;
    })
extract-add_all_example =
    extract-add_all 0xcc plain pmt (private_section ∷ []) (5 ∷ 6 ∷ [])
      (record { content_legal = omega arith; content_fits = omega arith; size_fits = omega arith })
      (one_more
        (record {
          content_legal = omega arith;
          content_fits = omega arith;
          size_fits = omega arith;
        })
        no_more)
      (omega arith)

-- Two bytes of embedded data in front of one of payload need seven bytes; eight are there, or six.
abbrev memory8 : List ℕ
memory8 = 0 ∷ 0 ∷ 0 ∷ 0 ∷ 0 ∷ 0 ∷ 0 ∷ 6 ∷ []

efp_add_embedded_data_lem_example :
    let made = (add_embedded_data 0xcc (5 ∷ []) (9 ∷ 8 ∷ []) 1 true).1 in
    (length made ≡ 7)
    × (efp_add_embedded_data 0xcc (some memory8) (9 ∷ 8 ∷ []) (5 ∷ []) 1 true
        ≡ some (0, some (made ++ drop 7 memory8)))
    × (efp_add_embedded_data 0xcc (some (drop 2 memory8)) (9 ∷ 8 ∷ []) (5 ∷ []) 1 true ≡ none)
unfolding efp_add_embedded_data
efp_add_embedded_data_lem_example =
    efp_add_embedded_data_lem 0xcc 7 memory8 (drop 2 memory8) (9 ∷ 8 ∷ []) (5 ∷ []) 1 true
      (omega arith) refl (omega arith) (omega arith)

extract_rounds_enough_example :
    (out_of_rounds (extract_loop (5 + 1) 5 (of_list (0x81 ∷ 0 ∷ 0 ∷ 0 ∷ 7 ∷ [])) [] [] 0) ≡ false)
    × (extract_loop (3 + (5 + 1)) 5 (of_list (0x81 ∷ 0 ∷ 0 ∷ 0 ∷ 7 ∷ [])) [] [] 0
        ≡ extract_loop (5 + 1) 5 (of_list (0x81 ∷ 0 ∷ 0 ∷ 0 ∷ 7 ∷ [])) [] [] 0)
extract_rounds_enough_example =
    extract_rounds_enough 3 5 (of_list (0x81 ∷ 0 ∷ 0 ∷ 0 ∷ 7 ∷ [])) [] [] 0
