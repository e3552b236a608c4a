-- ===== src/Receiver/Late.antt =====
-- Copies of a frame's packets that arrive after the frame was delivered.
use efp.Prelude.{
  ℕ, ◌+◌, ◌%◌, ◌^◌, ◌≤◌, ◌<◌, ◌≡◌, refl, sym, ap, ◌∙◌, arith, true, false, none, some, List, [],
  length, ltb, ◌==◌, ==_iff, lookup, some_same, subst,
}
use efp.Message.{too_old_fragment}
use efp.Wire.{decode_type1, decode_type2, decode_type3, type1_size, type2_size, type3_size}
use efp.Receiver.{ElasticFrameProtocolReceiver, is_threaded, super_frame_recalculator}
use efp.Frames.{Env}
use efp.Receiver.Unpack.Type1.{unpack_type1, fresh_type1}
use efp.Receiver.Unpack.Type2.{unpack_type2, fresh_type2}
use efp.Receiver.Unpack.Type3.{unpack_type3, fresh_type3}
use efp.Receiver.Receive.{complete, receive_by_type}
use efp.Receiver.Numbering.{At, recalculator_exact}
use efp.Receiver.Clearing.{Freed}
use efp.Receiver.Deliver.{receiver_worker_round}
use efp.Receiver.Invariant.{IsReceiver}
use efp.Receiver.Rounds.{receiver_worker_round-Round}

-- The packet is whole, of the given type, and carries a fragment of the frame with the number `key`.
pub data Carries (p : List ℕ) (key : ℕ) : ℕ → Type 0 where
  carries1 : type1_size ≤ length p → (decode_type1 p).super_frame_no ≡ key % 65536 → Carries p key 1
  carries2 :
      type2_size + (decode_type2 p).size_of_data ≤ length p
      → (decode_type2 p).super_frame_no ≡ key % 65536
      → Carries p key 2
  carries3 : type3_size ≤ length p → (decode_type3 p).super_frame_no ≡ key % 65536 → Carries p key 3

module _ (env : Env) (r : ElasticFrameProtocolReceiver) (p : List ℕ) (source n key : ℕ)
    (at : At r n) (ahead : key < n + 32768) (behind : n ≤ key + 32768) (fits : key < 2 ^ 64)
    (fits' : n < 2 ^ 64) (freed : Freed (r.bucket_list (key % 65536 % 8192)) key)
    (threads : is_threaded r.current_mode ≡ true) where
  abbrev renumbered : ElasticFrameProtocolReceiver
  renumbered = (super_frame_recalculator r (key % 65536)).1

  too_old :
      ((super_frame_recalculator r (key % 65536)).0
        == (r.bucket_list (key % 65536 % 8192)).delivery_order)
      ≡ true
  too_old =
      let x = recalculator_exact r n key at ahead behind fits fits' in
      (==_iff _ _).1 (x.0 ∙ sym freed.last_is)

  keeps_mode : is_threaded renumbered.current_mode ≡ true
  unfolding super_frame_recalculator
  keeps_mode = rw (at.started) threads

  by_type-late :
      {kind : ℕ}
      → Carries p key kind
      → receive_by_type env r kind p source
        ≡ some (record { message = too_old_fragment; receiver = renumbered; delivered = [] })
  unfolding receive_by_type unpack_type1 fresh_type1 unpack_type2 fresh_type2 unpack_type3
      fresh_type3 complete
  by_type-late (carries1 long number) =
      let whole : ltb (length p) type1_size ≡ false = ground (arith, long) in
      rw (whole, number, freed.is_free, too_old, keeps_mode) refl
  by_type-late (carries2 long number) =
      let whole : ltb (length p) type2_size ≡ false = ground (arith, long) in
      let room : ltb (length p) (type2_size + (decode_type2 p).size_of_data) ≡ false =
        ground (arith, long) in
      rw (whole, room, number, freed.is_free, too_old, keeps_mode) refl
  by_type-late (carries3 long number) =
      let whole : ltb (length p) type3_size ≡ false = ground (arith, long) in
      rw (whole, number, freed.is_free, too_old, keeps_mode) refl

-- With threads: when a round of the worker has taken a frame out of the map, a whole packet of that
-- frame of any type, that is, another copy or one that was missing, is answered as too old and touches
-- neither the map nor the buckets, so that the frame is not delivered again, as long as the number of
-- the last frame seen is near that of the frame.
pub receiver_worker_round-late :
    (env env2 : Env) (r r2 : ElasticFrameProtocolReceiver) (p : List ℕ) (source n key i kind : ℕ)
    → IsReceiver r
    → lookup key r.bucket_map ≡ some i
    → receiver_worker_round env r ≡ some r2
    → lookup key r2.bucket_map ≡ none
    → At r2 n
    → key < n + 32768
    → n ≤ key + 32768
    → key < 2 ^ 64
    → n < 2 ^ 64
    → is_threaded r2.current_mode ≡ true
    → Carries p key kind
    → (r3 : ElasticFrameProtocolReceiver) × (receive_by_type env2 r2 kind p source
        ≡ some (record { message = too_old_fragment; receiver = r3; delivered = [] }))
      × (r3.bucket_map ≡ r2.bucket_map)
      × (r3.bucket_list ≡ r2.bucket_list)
unfolding super_frame_recalculator
receiver_worker_round-late env env2 r r2 p source n key i kind v there goes gone at ahead behind
      fits fits' threads carries =
    let (picks, x) = receiver_worker_round-Round env r v in
    let same : x.after ≡ r2 = some_same x.after r2 (sym (x.goes) ∙ goes) in
    let place : i ≡ key % 65536 % 8192 = omega (arith, (v.kept.entry_holds key i there).place_is) in
    let freed : Freed (r2.bucket_list (key % 65536 % 8192)) key =
      subst (λ j. Freed (r2.bucket_list j) key) place
        (subst (λ y. Freed (y.bucket_list i) key) same
          (x.freed key i there
            (ap (λ (y : ElasticFrameProtocolReceiver). lookup key y.bucket_map) same ∙ gone))) in
    (
      (super_frame_recalculator r2 (key % 65536)).1,
      by_type-late env2 r2 p source n key at ahead behind fits fits' freed threads carries,
      rw (at.started) refl,
      rw (at.started) refl,
    )
