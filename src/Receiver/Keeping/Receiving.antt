-- ===== src/Receiver/Keeping/Receiving.antt =====
-- unpackType1, unpackType2 and unpackType3 and the invariant of the receiver.
use efp.Prelude.{ℕ, ◌+◌, ◌%◌, ◌<◌, List, length, ltb}
use efp.Prelude.Bytes.{AllBytes, drop-AllBytes, le_value_fits}
use efp.Message.{type2_frame_out_of_bounds}
use efp.Wire.{decode_type1, decode_type2, decode_type3, type2_size}
use efp.Receiver.{ElasticFrameProtocolReceiver}
use efp.Frames.{Env}
use efp.Receiver.Invariant.{Outside, Stands}
use efp.Receiver.Unpack.Type1.{unpack_type1}
use efp.Receiver.Unpack.Type2.{unpack_type2}
use efp.Receiver.Unpack.Type3.{unpack_type3}
use efp.Receiver.Keeping.{Keeps, answer-Keeps, cases-Keeps}
use efp.Receiver.Keeping.Opening.{fresh_type1-Keeps, fresh_type2-Keeps, fresh_type3-Keeps}
use efp.Receiver.Keeping.Filling.{fill_type1-Keeps, fill_type2-Keeps, fill_type3-Keeps}

type1_number : (p : List ℕ) → AllBytes p → (decode_type1 p).super_frame_no < 65536
unfolding decode_type1
type1_number p bytes = le_value_fits 2 (drop-AllBytes 2 bytes)

type2_number : (p : List ℕ) → AllBytes p → (decode_type2 p).super_frame_no < 65536
unfolding decode_type2
type2_number p bytes = le_value_fits 2 (drop-AllBytes 6 bytes)

type3_number : (p : List ℕ) → AllBytes p → (decode_type3 p).super_frame_no < 65536
unfolding decode_type3
type3_number p bytes = le_value_fits 2 (drop-AllBytes 2 bytes)

module _ {w : Outside} (env : Env) (r : ElasticFrameProtocolReceiver) (p : List ℕ) (source : ℕ)
    (v : Stands w r) (bytes : AllBytes p) where
  pub unpack_type1-Keeps : Keeps w (unpack_type1 env r p source)
  unfolding unpack_type1
  unpack_type1-Keeps =
      let h = decode_type1 p in
      let i = h.super_frame_no % 8192 in
      cases-Keeps (r.bucket_list i).active _ _ (λ used. fill_type1-Keeps r p i v used h)
        (λ free. fresh_type1-Keeps env r p source (r.bucket_list i) v h (type1_number p bytes) free)

  pub unpack_type3-Keeps : Keeps w (unpack_type3 env r p source)
  unfolding unpack_type3
  unpack_type3-Keeps =
      let h = decode_type3 p in
      let i = h.super_frame_no % 8192 in
      cases-Keeps (r.bucket_list i).active _ _ (λ used. fill_type3-Keeps r p i v used h)
        (λ free. fresh_type3-Keeps env r p source (r.bucket_list i) v h (type3_number p bytes) free)

  pub unpack_type2-Keeps : Keeps w (unpack_type2 env r p source)
  unfolding unpack_type2
  unpack_type2-Keeps =
      let h = decode_type2 p in
      let i = h.super_frame_no % 8192 in
      cases-Keeps (ltb (length p) (type2_size + h.size_of_data)) _ _
        (λ short. answer-Keeps type2_frame_out_of_bounds v)
        (λ fits.
          cases-Keeps (r.bucket_list i).active _ _ (λ used. fill_type2-Keeps r p i v used h)
            (λ free.
              fresh_type2-Keeps env r p source (r.bucket_list i) v h (type2_number p bytes) free))
