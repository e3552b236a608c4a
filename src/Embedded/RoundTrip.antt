-- ===== src/Embedded/RoundTrip.antt =====
-- What addEmbeddedData puts in front of a payload, extractEmbeddedData finds.
use efp.Prelude.{
  ℕ, zero, suc, ◌+◌, ◌%◌, ◌≤◌, ◌<◌, ◌≡◌, refl, sym, ap, ◌∙◌, arith, bit_and, bit_or, Bool, true,
  false, not, ◌&&◌, ◌||◌, Option, some, List, [], ◌∷◌, ◌++◌, length, take, drop, get_elem?, ltb,
  leb, ◌==◌, if◌then◌else◌, length-append, drop-append_left, take-append_left,
}
use mathlib.Core.List.{append_assoc}
use efp.Prelude.Bytes.{le_bytes, le_value, holds_below, holds_below_lem}
use efp.Message.{no_error}
use efp.Frames.{Memory}
use efp.Embedded.{
  ElasticEmbeddedHeader, encode_header, section_type, add_embedded_data, read, Extraction,
  extract_loop,
}

abbrev pub of_list : List ℕ → Memory
of_list l = record { capacity = length l; byte = get_elem? l }

drop_step :
    (l : List ℕ) (start : ℕ)
    → start < length l
    → (x : ℕ) × (get_elem? l start ≡ some x) × (drop start l ≡ x ∷ drop (start + 1) l)
drop_step [] start h = absurd (ground (arith, h))
drop_step (x ∷ l) zero h = (x, refl, refl)
drop_step (x ∷ l) (suc start) h =
    let (y, e, d) = drop_step l start (omega (arith, h)) in
    let same : suc (start + 1) ≡ suc start + 1 = omega arith in
    (y, e, d ∙ ap (λ (n : ℕ). y ∷ drop n (x ∷ l)) same)

read_list :
    (l : List ℕ) (start size : ℕ)
    → start + size ≤ length l
    → read (of_list l) start size ≡ some (take size (drop start l))
unfolding read
read_list l start zero h = refl
read_list l start (suc size) h =
    let (x, e, d) = drop_step l start (omega (arith, h)) in
    let inside : ltb start (length l) ≡ true = ground (arith, h) in
    rw (inside, e, read_list l (start + 1) size (omega (arith, h)), d)

pub read_at :
    (l pre mid post : List ℕ) (p n : ℕ)
    → l ≡ pre ++ (mid ++ post)
    → p ≡ length pre
    → n ≡ length mid
    → read (of_list l) p n ≡ some mid
read_at l pre mid post p n e ep en =
    let fits : p + n ≤ length l = omega (
      arith,
      ap (length {A = ℕ}) e,
      length-append pre (mid ++ post),
      length-append mid post,
      ep,
      en,
    ) in
    let found : take n (drop p l) ≡ mid =
      rw (e, ep, en, drop-append_left pre (mid ++ post)) (take-append_left mid post) in
    read_list l p n fits ∙ ap some found

types_table :
    holds_below
      (λ c.
        (c == 0)
        || ((bit_and c 0x7f == c)
            && ((bit_and c 0x80 == 0)
                && ((bit_and (bit_or c 0x80) 0x7f == c)
                    && (not (bit_and (bit_or c 0x80) 0x80 == 0)
                        && (not (bit_or c 0x80 == 0) && ltb (bit_or c 0x80) 256))))))
      128
    ≡ true
unfolding holds_below
types_table = refl

-- The type byte of a section, with and without the bit that marks the last one.
record Marks (content : ℕ) (is_last : Bool) : Type 0 where
  kept : bit_and (section_type content is_last) 0x7f ≡ content
  ends : not (bit_and (section_type content is_last) 0x80 == 0) ≡ is_last
  legal : section_type content is_last == 0 ≡ false
  fits : section_type content is_last < 256

content-Marks : (c : ℕ) (is_last : Bool) → 0 < c → c < 128 → Marks c is_last
content-Marks c false lo hi =
    let t = holds_below_lem _ types_table hi in
    record {
      kept = ground (arith, t);
      ends = ground (arith, t);
      legal = ground arith;
      fits = omega arith;
    }
content-Marks c true lo hi =
    let t = holds_below_lem _ types_table hi in
    record {
      kept = ground (arith, t);
      ends = ground (arith, t);
      legal = ground (arith, t);
      fits = ground (arith, t);
    }

pub record Section : Type 0 where
  pub content : ℕ
  pub bytes : List ℕ

pub record IsSection (s : Section) : Type 0 where
  pub content_legal : 0 < s.content
  pub content_fits : s.content < 128
  pub size_fits : length s.bytes < 65536

pub data AllSections : List Section → Type 0 where
  no_more : AllSections []
  one_more :
      {s : Section} {rest : List Section} → IsSection s → AllSections rest → AllSections (s ∷ rest)

abbrev pub is_empty : List Section → Bool
is_empty [] = true
is_empty (s ∷ rest) = false

-- The payload with all sections in front, by one call of addEmbeddedData for each, last one first.
abbrev pub add_all : ℕ → List Section → List ℕ → List ℕ
add_all pad [] payload = payload
add_all pad (s ∷ rest) payload =
    (add_embedded_data pad (add_all pad rest payload) s.bytes s.content (is_empty rest)).1

abbrev pub contents_of : List Section → List ℕ
contents_of [] = []
contents_of (s ∷ rest) = s.content ∷ contents_of rest

abbrev pub bytes_of : List Section → List (List ℕ)
bytes_of [] = []
bytes_of (s ∷ rest) = s.bytes ∷ bytes_of rest

abbrev pub header_of : ℕ → Section → Bool → ElasticEmbeddedHeader
header_of pad s is_last = record {
  embedded_frame_type = section_type s.content is_last;
  pad = pad;
  size = length s.bytes % 65536;
}

pub add_embedded_data_lem :
    (pad : ℕ) (packet : List ℕ) (s : Section) (is_last : Bool)
    → IsSection s
    → (add_embedded_data pad packet s.bytes s.content is_last).1
      ≡ encode_header (header_of pad s is_last) ++ (s.bytes ++ packet)
unfolding add_embedded_data
add_embedded_data_lem pad packet s is_last v =
    let small : ltb 65535 (length s.bytes) ≡ false = ground (arith, v.size_fits) in rw small

pub header_lem :
    (pad : ℕ) (s : Section) (is_last : Bool)
    → IsSection s
    → (le_value 1 (encode_header (header_of pad s is_last)) ≡ section_type s.content is_last)
      × (le_value 2 (drop 2 (encode_header (header_of pad s is_last))) ≡ length s.bytes)
      × (length (encode_header (header_of pad s is_last)) ≡ 4)
unfolding encode_header le_bytes le_value
header_lem pad s is_last v =
    let m : Marks s.content is_last =
      content-Marks s.content is_last v.content_legal v.content_fits in
    (omega (arith, m.fits), omega (arith, v.size_fits), refl)

abbrev pub finished : List ℕ → List (List ℕ) → ℕ → Option (Option Extraction)
finished contents sections position = some (
    some (record {
      message = no_error;
      contents = contents;
      sections = sections;
      payload_position = position;
    }))

-- One round at a section whose data ends inside the frame.
pub round_lem :
    (pad rounds : ℕ) (l pre post : List ℕ) (s : Section) (is_last : Bool) (contents : List ℕ)
    (sections : List (List ℕ)) (p : ℕ)
    → IsSection s
    → l ≡ pre ++ (encode_header (header_of pad s is_last) ++ (s.bytes ++ post))
    → p ≡ length pre
    → 0 < length post
    → extract_loop (suc rounds) (length l) (of_list l) contents sections p ≡ (
        if is_last
        then finished
            (contents ++ (s.content ∷ []))
            (sections ++ (s.bytes ∷ []))
            (p + (length s.bytes + 4))
        else extract_loop rounds
            (length l)
            (of_list l)
            (contents ++ (s.content ∷ []))
            (sections ++ (s.bytes ∷ []))
            (p + (length s.bytes + 4)))
unfolding extract_loop
round_lem pad rounds l pre post s is_last contents sections p v e ep some_post =
    let h = encode_header (header_of pad s is_last) in
    let (type_is, size_is, four) = header_lem pad s is_last v in
    let m : Marks s.content is_last =
      content-Marks s.content is_last v.content_legal v.content_fits in
    let first : read (of_list l) p 4 ≡ some h =
      read_at l pre h (s.bytes ++ post) p 4 e ep (sym four) in
    let data_read : read (of_list l) (p + 4) (length s.bytes) ≡ some s.bytes =
      read_at l (pre ++ h) s.bytes post (p + 4) (length s.bytes)
        (e ∙ sym (append_assoc pre h (s.bytes ++ post)))
        (omega (arith, length-append pre h, four, ep)) refl in
    let inside : leb (length l) (p + (length s.bytes + 4)) ≡ false = ground (
      arith,
      ap (length {A = ℕ}) e,
      length-append pre (h ++ (s.bytes ++ post)),
      length-append h (s.bytes ++ post),
      length-append s.bytes post,
      ep,
      four,
      some_post,
    ) in
    rw (first, type_is, size_is, m.legal, data_read, inside, m.kept, m.ends)
