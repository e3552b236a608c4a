-- ===== src/Wire/RoundTrip.antt =====
-- Each header reads back from the packet that it starts, field by field, whatever follows it.
use efp.Prelude.{ℕ, ◌≡◌, refl, List, ◌++◌, arith, drop}
use efp.Wire.{
  Padding, ElasticFrameType1, ElasticFrameType2, ElasticFrameType3, IsType1, IsType2, IsType3,
  encode_type1, encode_type2, encode_type3, decode_type1, decode_type2, decode_type3,
}

-- A type 1 header whose fields fit their types reads back, field by field, from any packet that
-- starts with it.
pub decode_type1-encode_type1 :
    (h : ElasticFrameType1) (rest : List ℕ) → IsType1 h → decode_type1 (encode_type1 h ++ rest) ≡ h
unfolding encode_type1 decode_type1
decode_type1-encode_type1 h rest v = ground arith

-- A type 2 header whose fields fit their types reads back, field by field, from any packet that
-- starts with it.
pub decode_type2-encode_type2 :
    (padding : Padding) (h : ElasticFrameType2) (rest : List ℕ)
    → IsType2 h
    → decode_type2 (encode_type2 padding h ++ rest) ≡ h
unfolding encode_type2 decode_type2
decode_type2-encode_type2 padding h rest v = ground arith

-- A type 3 header whose fields fit their types reads back, field by field, from any packet that
-- starts with it.
pub decode_type3-encode_type3 :
    (h : ElasticFrameType3) (rest : List ℕ) → IsType3 h → decode_type3 (encode_type3 h ++ rest) ≡ h
unfolding encode_type3 decode_type3
decode_type3-encode_type3 h rest v = ground arith

-- What stands behind the header is untouched.
pub drop-encode_type1 :
    (h : ElasticFrameType1) (rest : List ℕ) → drop 8 (encode_type1 h ++ rest) ≡ rest
unfolding encode_type1
drop-encode_type1 h rest = refl

pub drop-encode_type2 :
    (padding : Padding) (h : ElasticFrameType2) (rest : List ℕ)
    → drop 32 (encode_type2 padding h ++ rest) ≡ rest
unfolding encode_type2
drop-encode_type2 padding h rest = refl

pub drop-encode_type3 :
    (h : ElasticFrameType3) (rest : List ℕ) → drop 8 (encode_type3 h ++ rest) ≡ rest
unfolding encode_type3
drop-encode_type3 h rest = refl
