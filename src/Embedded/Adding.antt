-- ===== src/Embedded/Adding.antt =====
-- efp_add_embedded_data of the C API beside addEmbeddedData.
use efp.Prelude.{
  ℕ, ◌+◌, ◌%◌, ◌≤◌, ◌<◌, ◌≡◌, refl, ap, ◌∙◌, arith, Bool, false, Option, none, some, List, ◌++◌,
  length, length-append, drop, ltb,
}
use efp.Prelude.Bytes.{le_bytes}
use efp.Embedded.{
  ElasticEmbeddedHeader, section_type, encode_header, add_embedded_data, efp_add_embedded_data,
}
use efp.Sender.{overwrite}
use efp.Sender.Buffer.{overwrite_fits}

length-encode_header : (h : ElasticEmbeddedHeader) → length (encode_header h) ≡ 4
unfolding encode_header le_bytes
length-encode_header h = refl

overwrite_start :
    (memory bytes : List ℕ)
    → length bytes ≤ length memory
    → overwrite memory 0 bytes ≡ some (bytes ++ drop (length bytes) memory)
overwrite_start memory bytes room =
    let all : 0 + length bytes ≡ length bytes = omega arith in
    overwrite_fits memory 0 bytes (omega (arith, room))
    ∙ ap (λ (n : ℕ). some (bytes ++ drop n memory)) all

overwrite_short :
    (memory bytes : List ℕ) → length memory < length bytes → overwrite memory 0 bytes ≡ none
unfolding overwrite
overwrite_short memory bytes short = ground (arith, short)

-- The two calls that efp_add_embedded_data is made for, with at most 65535 bytes of embedded data, the
-- limit that only addEmbeddedData tests. The size that the call without memory answers is just what
-- the call with memory needs: in memory of that size or more it writes what addEmbeddedData makes of
-- the payload, at the start and in exactly that many bytes, leaves what is behind them and answers 0;
-- in less memory it writes behind the end, which is undefined behaviour.
pub efp_add_embedded_data_lem :
    (pad size : ℕ) (memory short embedded payload : List ℕ) (content : ℕ) (is_last : Bool)
    → length embedded ≤ 65535
    → efp_add_embedded_data pad none embedded payload content is_last ≡ some (size, none)
    → size ≤ length memory
    → length short < size
    → let made = (add_embedded_data pad payload embedded content is_last).1 in
      (length made ≡ size)
      × (efp_add_embedded_data pad (some memory) embedded payload content is_last
          ≡ some (0, some (made ++ drop size memory)))
      × (efp_add_embedded_data pad (some short) embedded payload content is_last ≡ none)
unfolding efp_add_embedded_data add_embedded_data
efp_add_embedded_data_lem pad size memory short embedded payload content is_last small asked room
      none_left =
    let within : ltb 65535 (length embedded) ≡ false = ground (arith, small) in
    let h : ElasticEmbeddedHeader = record {
      embedded_frame_type = section_type content is_last;
      pad = pad;
      size = length embedded % 65536;
    } in
    let made : List ℕ = encode_header h ++ (embedded ++ payload) in
    let same : (add_embedded_data pad payload embedded content is_last).1 ≡ made = rw within refl in
    let count : length made ≡ size = omega (
      arith,
      ap {B = ℕ} (λ (o : Option (ℕ × Option (List ℕ))). elim o [ none ↦ 0 | some x ↦ x.0 ]) asked,
      length-append (encode_header h) (embedded ++ payload),
      length-append embedded payload,
      length-encode_header h,
    ) in
    (
      ap (length {A = ℕ}) same ∙ count,
      rw (overwrite_start memory made (omega (arith, count, room)), same, count) refl,
      rw (overwrite_short short made (omega (arith, count, none_left))) refl,
    )
