-- ===== src/Transfer/Dispatch.antt =====
-- receiveFragmentFromPtr hands each packet of a frame to the handler of its type. Here the receiver
-- is in THREADED mode, where no delivery pass follows.
use efp.Prelude.{
  ℕ, ◌%◌, ◌≡◌, ap, ◌∙◌, arith, true, bit_and, bit_or, Option, some, List, [], ◌∷◌, ◌++◌, not, ◌&&◌,
  false, length, ltb, ◌≤◌,
}
use efp.Message.{ElasticFrameMessages}
use efp.Wire.{encode_type1, encode_type2, encode_type3}
use efp.Wire.FrameType.{Splits, type1-Splits, type2-Splits, type3-Splits}
use efp.Receiver.{ElasticFrameProtocolReceiver, is_threaded}
use efp.Frames.{Env}
use efp.Receiver.Unpack.Type1.{unpack_type1}
use efp.Receiver.Unpack.Type2.{unpack_type2}
use efp.Receiver.Unpack.Type3.{unpack_type3}
use efp.Receiver.Receive.{Received, complete, receive_by_type, receive_fragment_from_ptr}
use efp.Transfer.{Frame, IsFrame, header1, header2, header3}

-- Both threads run.
pub record Running (r : ElasticFrameProtocolReceiver) : Type 0 where
  pub worker : r.is_worker_thread_active ≡ true
  pub delivery : r.is_delivery_thread_active ≡ true
  pub mode : is_threaded r.current_mode ≡ true

abbrev pub answered : ElasticFrameMessages → ElasticFrameProtocolReceiver → Option Received
answered m r = some (record { message = m; receiver = r; delivered = [] })

complete_threaded :
    (env : Env) (m : ElasticFrameMessages) (r : ElasticFrameProtocolReceiver)
    → is_threaded r.current_mode ≡ true
    → complete env (m, r) ≡ answered m r
unfolding complete
complete_threaded env m r e = rw e

-- A byte with the type in its low half.
low_of : (t flags : ℕ) → Splits t flags → bit_and (bit_or t (bit_and flags 0xf0) % 256) 0x0f ≡ t
low_of t flags s =
    let e : bit_or t (bit_and flags 0xf0) % 256 ≡ bit_or t (bit_and flags 0xf0) =
      omega (arith, s.fits) in
    ap (λ (b : ℕ). bit_and b 0x0f) e ∙ s.low

-- The test of the threads passes, and the type decides.
receive-Running :
    (env : Env) (r : ElasticFrameProtocolReceiver) (b : ℕ) (bs : List ℕ) (source kind : ℕ)
    → Running r
    → bit_and b 0x0f ≡ kind
    → receive_fragment_from_ptr env r (b ∷ bs) source ≡ receive_by_type env r kind (b ∷ bs) source
unfolding receive_fragment_from_ptr
receive-Running env r b bs source kind run e =
    let gate : (not (r.is_worker_thread_active && r.is_delivery_thread_active)
          && is_threaded r.current_mode)
        ≡ false =
      ground (arith, run.worker, run.delivery) in
    rw (gate, e)

module _ (env : Env) (r : ElasticFrameProtocolReceiver) (p : List ℕ) (source : ℕ)
    {m : ElasticFrameMessages} {r' : ElasticFrameProtocolReceiver}
    (still : is_threaded r'.current_mode ≡ true) where
  by_type1 :
      8 ≤ length p
      → unpack_type1 env r p source ≡ some (m, r')
      → receive_by_type env r 1 p source ≡ answered m r'
  unfolding receive_by_type
  by_type1 h e =
      let long : ltb (length p) 8 ≡ false = ground arith in
      rw (long, e) (complete_threaded env m r' still)

  by_type2 :
      32 ≤ length p
      → unpack_type2 env r p source ≡ some (m, r')
      → receive_by_type env r 2 p source ≡ answered m r'
  unfolding receive_by_type
  by_type2 h e =
      let long : ltb (length p) 32 ≡ false = ground arith in
      rw (long, e) (complete_threaded env m r' still)

  by_type3 :
      8 ≤ length p
      → unpack_type3 env r p source ≡ some (m, r')
      → receive_by_type env r 3 p source ≡ answered m r'
  unfolding receive_by_type
  by_type3 h e =
      let long : ltb (length p) 8 ≡ false = ground arith in
      rw (long, e) (complete_threaded env m r' still)

module _ (g : Frame) (v : IsFrame g) (env : Env) (r : ElasticFrameProtocolReceiver) (source : ℕ)
    (run : Running r) (rest : List ℕ) {m : ElasticFrameMessages} {r' : ElasticFrameProtocolReceiver}
    (still : is_threaded r'.current_mode ≡ true) where
  pub receive_type1 :
      (i : ℕ)
      → unpack_type1 env r (encode_type1 (header1 g i) ++ rest) source ≡ some (m, r')
      → receive_fragment_from_ptr env r (encode_type1 (header1 g i) ++ rest) source ≡ answered m r'
  unfolding encode_type1 header1
  receive_type1 i e =
      receive-Running env r _ _ source 1 run (low_of 1 g.flags (type1-Splits g.flags v.flags_fit))
      ∙ by_type1 env r (encode_type1 (header1 g i) ++ rest) source still (omega arith) e

  pub receive_type2 :
      unpack_type2 env r (encode_type2 g.padding (header2 g) ++ rest) source ≡ some (m, r')
      → receive_fragment_from_ptr env r (encode_type2 g.padding (header2 g) ++ rest) source
        ≡ answered m r'
  unfolding encode_type2 header2
  receive_type2 e =
      receive-Running env r _ _ source 2 run (low_of 2 g.flags (type2-Splits g.flags v.flags_fit))
      ∙ by_type2 env r (encode_type2 g.padding (header2 g) ++ rest) source still (omega arith) e

  pub receive_type3 :
      unpack_type3 env r (encode_type3 (header3 g) ++ rest) source ≡ some (m, r')
      → receive_fragment_from_ptr env r (encode_type3 (header3 g) ++ rest) source ≡ answered m r'
  unfolding encode_type3 header3
  receive_type3 e =
      receive-Running env r _ _ source 3 run (low_of 3 g.flags (type3-Splits g.flags v.flags_fit))
      ∙ by_type3 env r (encode_type3 (header3 g) ++ rest) source still (omega arith) e
