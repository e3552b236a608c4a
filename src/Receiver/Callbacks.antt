-- ===== src/Receiver/Callbacks.antt =====
-- What the callbacks of the C API get of a frame.
use efp.Prelude.{
  ◌≤◌, zero, suc, none, get_elem?, Bool-cases, Option-cases, inl, inr, ℕ, ◌+◌, ◌-◌, ◌<◌, ◌≡◌, refl,
  sym, ap, ◌∙◌, arith, bit_and, true, false, some, List, [], ◌∷◌, ◌++◌, length, length-append, ltb,
  ◌==◌,
}
use mathlib.Core.List.{append_assoc, append-nil}
use efp.Message.{inline_payload}
use efp.Frames.{SuperFrame}
use efp.Embedded.{extract_embedded_data, extract_loop, read, encode_header}
use efp.Embedded.RoundTrip.{
  of_list, Section, IsSection, AllSections, no_more, one_more, add_all, contents_of, bytes_of,
  header_of, is_empty, add_embedded_data_lem, read_at,
}
use efp.Embedded.Loop.{holding, extract-add_all}
use efp.Receiver.GotData.{
  Callbacks, EmbeddedDataCall, ReceiveCall, Calls, payload_call, embedded_calls, has_embedded_data,
  got_embedded_data, got_data,
}

-- The payload stands behind something.
payload_behind :
    (pad : ℕ) (ss : List Section) (payload : List ℕ)
    → AllSections ss
    → (front : List ℕ) × (add_all pad ss payload ≡ front ++ payload)
payload_behind pad [] payload no_more = ([], refl)
payload_behind pad (s ∷ rest) payload (one_more v vs) =
    let (front, e) = payload_behind pad rest payload vs in
    let h = encode_header (header_of pad s (is_empty rest)) in
    (
      h ++ (s.bytes ++ front),
      add_embedded_data_lem pad (add_all pad rest payload) s (is_empty rest) v
          ∙ rw (e, append_assoc h (s.bytes ++ front) payload, append_assoc s.bytes front payload),
    )

-- The calls for some sections.
abbrev pub calls_of : ℕ → ℕ → ℕ → List Section → List EmbeddedDataCall
calls_of g context pts [] = []
calls_of g context pts (s ∷ rest) =
    record { function = g; section = s.bytes; data_type = s.content; pts = pts; context = context }
    ∷ calls_of g context pts rest

embedded_calls_lem :
    (g context pts : ℕ) (ss : List Section)
    → embedded_calls g (some context) pts (bytes_of ss) (contents_of ss)
      ≡ some (calls_of g context pts ss)
unfolding embedded_calls
embedded_calls_lem g context pts [] = refl
embedded_calls_lem g context pts (s ∷ rest) = rw (embedded_calls_lem g context pts rest)

-- The frame's payload as gotData passes it on: behind the sections, up to the end of the frame.
abbrev pub behind_sections : ℕ → SuperFrame → ℕ → List ℕ → ReceiveCall
behind_sections f frame context payload =
    payload_call f frame (frame.frame_size - length payload) context

-- With both functions set, a frame that is not broken, has the flag INLINE_PAYLOAD, and holds a
-- non-empty payload with sections that addEmbeddedData put in front, at least one, each of less than
-- 2 ^ 16 bytes and with a content from 1 to 127, makes one call of the embedded data function for each
-- section, in their order, with its bytes and content, and then one call of the frame function, whose
-- pointer and size are exactly the payload.
pub got_data-add_all :
    (callbacks : Callbacks) (f g context pad : ℕ) (frame : SuperFrame) (s : Section)
    (rest : List Section) (payload : List ℕ)
    → callbacks.receive ≡ some f
    → callbacks.receive_embedded_data ≡ some g
    → callbacks.context ≡ some context
    → frame.broken ≡ false
    → bit_and frame.flags inline_payload == 0 ≡ false
    → IsSection s
    → AllSections rest
    → 0 < length payload
    → let l = add_all pad (s ∷ rest) payload in
      let call = behind_sections f (holding frame l) context payload in
      (got_data callbacks (holding frame l)
        ≡ some (record { embedded = calls_of g context frame.pts (s ∷ rest); payload = some call }))
      × (call.frame_data ≡ some (of_list l))
      × (read (of_list l) call.offset call.size ≡ some payload)
unfolding got_data got_embedded_data
got_data-add_all callbacks f g context pad frame s rest payload set set_too there whole marked v vs
      some_payload =
    let l = add_all pad (s ∷ rest) payload in
    let (front, e) = payload_behind pad (s ∷ rest) payload (one_more v vs) in
    let sum : length l ≡ length front + length payload =
      ap (length {A = ℕ}) e ∙ length-append front payload in
    let inside : ltb (length l) (length l - length payload) ≡ false = ground (arith, sum) in
    let taken : has_embedded_data (holding frame l) ≡ true = ground (arith, whole, marked) in
    (
      rw (
        set,
        got_data,
        taken,
        set_too,
        there,
        extract-add_all pad frame s rest payload v vs some_payload,
        embedded_calls_lem g context frame.pts (s ∷ rest),
        inside,
      ),
      refl,
      read_at l front payload [] (length l - length payload)
          (length l - (length l - length payload))
          (e ∙ ap (λ (x : List ℕ). front ++ x) (sym (append-nil payload))) (omega (arith, sum))
          (omega (arith, sum)),
    )

-- Whatever the frame holds, the pointer and the size that the payload's function gets end exactly
-- where the frame ends, and start inside it.
pub got_data-in_frame :
    (callbacks : Callbacks) (frame : SuperFrame) (calls : Calls) (call : ReceiveCall)
    → got_data callbacks frame ≡ some calls
    → calls.payload ≡ some call
    → (call.offset + call.size ≡ frame.frame_size) × (call.frame_data ≡ frame.frame_data)
unfolding got_data got_embedded_data
got_data-in_frame callbacks frame calls call e there = ground (arith, e, there)

-- What is read from inside a list to behind its end is not there.
read_short :
    (l : List ℕ) (start size : ℕ)
    → length l < start + size
    → start ≤ length l
    → read (of_list l) start size ≡ none
unfolding read
read_short l start zero short inside = absurd (omega (arith, short, inside))
read_short l start (suc size) short inside = elim (Bool-cases (ltb start (length l))) [
  | inr out ↦ rw out refl
  | inl more ↦
      let rest = read_short l (start + 1) size (omega (arith, short)) (ground (arith, more)) in
      elim (Option-cases (get_elem? l start)) [
        | inl nothing ↦ rw (more, nothing) refl
        | inr (x, there) ↦ rw (more, there, rest) refl
      ]
]

short_loop :
    (bytes : List ℕ) (rounds : ℕ)
    → 0 < rounds
    → length bytes < 4
    → extract_loop rounds (length bytes) (of_list bytes) [] [] 0 ≡ none
unfolding extract_loop
short_loop bytes zero some_round few = absurd (omega (arith, some_round))
short_loop bytes (suc rounds) some_round few = rw (read_short bytes 0 4 few (omega arith)) refl

-- A frame of less than the four bytes of a section's header that has the flag INLINE_PAYLOAD, is not
-- broken, and comes to callbacks of which both functions are set, is read behind its end: undefined
-- behaviour, whatever the sender is.
pub got_data-short :
    (callbacks : Callbacks) (f g : ℕ) (frame : SuperFrame) (bytes : List ℕ)
    → callbacks.receive ≡ some f
    → callbacks.receive_embedded_data ≡ some g
    → frame.broken ≡ false
    → bit_and frame.flags inline_payload == 0 ≡ false
    → length bytes < 4
    → got_data callbacks (holding frame bytes) ≡ none
unfolding got_data got_embedded_data extract_embedded_data
got_data-short callbacks f g frame bytes set set_too whole marked few =
    let taken : has_embedded_data (holding frame bytes) ≡ true = ground (arith, whole, marked) in
    rw
      (
        set,
        got_data,
        taken,
        set_too,
        got_embedded_data,
        short_loop bytes (length bytes + 1) (omega arith) few,
      )
      refl
