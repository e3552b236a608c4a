-- ===== src/Embedded/Loop.antt =====
-- The loop of extractEmbeddedData over all sections in front of a payload.
use efp.Prelude.{
  Option, ◌>>=◌, ℕ, zero, suc, ◌+◌, ◌-◌, ◌≤◌, ◌<◌, ◌≡◌, refl, sym, ap, ◌∙◌, arith, true, false,
  some, List, [], ◌∷◌, ◌++◌, length, length-append,
}
use mathlib.Core.List.{append_assoc}
use efp.Message.{no_error}
use efp.Frames.{SuperFrame}
use efp.Embedded.{Extraction, encode_header, extract_loop, extract_embedded_data}
use efp.Embedded.RoundTrip.{
  of_list, Section, IsSection, AllSections, no_more, one_more, add_all, contents_of, bytes_of,
  header_of, is_empty, add_embedded_data_lem, header_lem, finished, round_lem,
}

length-add_all :
    (pad : ℕ) (ss : List Section) (payload : List ℕ)
    → AllSections ss
    → length ss + length payload ≤ length (add_all pad ss payload)
length-add_all pad [] payload no_more = omega arith
length-add_all pad (s ∷ rest) payload (one_more v vs) =
    let h = encode_header (header_of pad s (is_empty rest)) in
    let inner = add_all pad rest payload in
    omega (
      arith,
      ap (length {A = ℕ}) (add_embedded_data_lem pad inner s (is_empty rest) v),
      length-append h (s.bytes ++ inner),
      length-append s.bytes inner,
      (header_lem pad s (is_empty rest) v).2,
      length-add_all pad rest payload vs,
    )

loop_lem :
    (pad : ℕ) (payload : List ℕ) (s : Section) (rest : List Section) (rounds : ℕ) (l pre : List ℕ)
    (contents : List ℕ) (sections : List (List ℕ)) (p : ℕ)
    → IsSection s
    → AllSections rest
    → 0 < length payload
    → l ≡ pre ++ add_all pad (s ∷ rest) payload
    → p ≡ length pre
    → length rest < rounds
    → extract_loop rounds (length l) (of_list l) contents sections p
      ≡ finished
          (contents ++ contents_of (s ∷ rest))
          (sections ++ bytes_of (s ∷ rest))
          (length l - length payload)
loop_lem pad payload s rest zero l pre contents sections p v vs some_payload e ep few =
    absurd (ground (arith, few))
loop_lem pad payload s [] (suc rounds) l pre contents sections p v vs some_payload e ep few =
    let h = encode_header (header_of pad s true) in
    let e' : l ≡ pre ++ (h ++ (s.bytes ++ payload)) =
      e ∙ ap (λ (x : List ℕ). pre ++ x) (add_embedded_data_lem pad payload s true v) in
    let end : p + (length s.bytes + 4) ≡ length l - length payload = omega (
      arith,
      ap (length {A = ℕ}) e',
      length-append pre (h ++ (s.bytes ++ payload)),
      length-append h (s.bytes ++ payload),
      length-append s.bytes payload,
      ep,
      (header_lem pad s true v).2,
    ) in
    round_lem pad rounds l pre payload s true contents sections p v e' ep some_payload
    ∙ ap (finished (contents ++ (s.content ∷ [])) (sections ++ (s.bytes ∷ []))) end
loop_lem pad payload s (s2 ∷ rest) (suc rounds) l pre contents sections p v (one_more v2 vs)
      some_payload e ep few =
    let h = encode_header (header_of pad s false) in
    let inner = add_all pad (s2 ∷ rest) payload in
    let e' : l ≡ pre ++ (h ++ (s.bytes ++ inner)) =
      e ∙ ap (λ (x : List ℕ). pre ++ x) (add_embedded_data_lem pad inner s false v) in
    let e2 : l ≡ (pre ++ (h ++ s.bytes)) ++ inner =
      e'
      ∙ ap (λ (x : List ℕ). pre ++ x) (sym (append_assoc h s.bytes inner))
      ∙ sym (append_assoc pre (h ++ s.bytes) inner) in
    let p2 : p + (length s.bytes + 4) ≡ length (pre ++ (h ++ s.bytes)) = omega (
      arith,
      length-append pre (h ++ s.bytes),
      length-append h s.bytes,
      ep,
      (header_lem pad s false v).2,
    ) in
    let long : 0 < length inner =
      omega (arith, length-add_all pad (s2 ∷ rest) payload (one_more v2 vs)) in
    round_lem pad rounds l pre inner s false contents sections p v e' ep long
    ∙ loop_lem pad payload s2 rest rounds l (pre ++ (h ++ s.bytes)) (contents ++ (s.content ∷ []))
        (sections ++ (s.bytes ∷ [])) (p + (length s.bytes + 4)) v2 vs some_payload e2 p2
        (omega (arith, few))
    ∙ rw (
      append_assoc contents (s.content ∷ []) (contents_of (s2 ∷ rest)),
      append_assoc sections (s.bytes ∷ []) (bytes_of (s2 ∷ rest)),
    )

-- The frame that is delivered with these bytes.
abbrev pub holding : SuperFrame → List ℕ → SuperFrame
holding frame l = record frame { frame_size = length l; frame_data = some (of_list l) }

-- From a frame whose data is a non-empty payload with sections put in front of it by addEmbeddedData,
-- at least one, each of less than 2 ^ 16 bytes and with a content from 1 to 127, extractEmbeddedData
-- takes all contents and sections, in their order, reports no error and reads nothing outside the
-- frame, and the position that it leaves is that of the payload.
pub extract-add_all :
    (pad : ℕ) (frame : SuperFrame) (s : Section) (rest : List Section) (payload : List ℕ)
    → IsSection s
    → AllSections rest
    → 0 < length payload
    → extract_embedded_data (holding frame (add_all pad (s ∷ rest) payload)) 0
      ≡ some (record {
        message = no_error;
        contents = contents_of (s ∷ rest);
        sections = bytes_of (s ∷ rest);
        payload_position = length (add_all pad (s ∷ rest) payload) - length payload;
      })
unfolding extract_embedded_data
extract-add_all pad frame s rest payload v vs some_payload =
    let l = add_all pad (s ∷ rest) payload in
    ap (λ (o : Option (Option Extraction)). o >>= (λ (x : Option Extraction). x))
      (loop_lem pad payload s rest (length l + 1) l [] [] [] 0 v vs some_payload refl refl
        (omega (arith, length-add_all pad (s ∷ rest) payload (one_more v vs))))
