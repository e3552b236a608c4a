-- ===== src/Transfer/Accepting.antt =====
-- A further packet of a frame at the receiver: it fills the bucket, and a repeated one changes
-- nothing.
use efp.Prelude.{
  ℕ, ◌*◌, ◌≡◌, refl, sym, ap, ◌∙◌, Bool, true, false, Option, some, List, update, ◌==◌, ==_iff,
  Bool-cases, inl, inr, subst, if◌then◌else◌, insert,
}
use mathlib.Core.Path.{fun_ext}
use efp.Message.{ElasticFrameMessages, no_error, duplicate_packet_received}
use efp.Receiver.{
  ElasticFrameProtocolReceiver, Bucket, is_threaded, super_frame_recalculator, set_bucket,
}
use efp.Frames.{Env}
use efp.Receiver.Unpack.Type1.{fill_type1}
use efp.Receiver.Unpack.Type2.{fill_type2}
use efp.Receiver.Unpack.Type3.{fill_type3}
use efp.Receiver.Receive.{receive_fragment_from_ptr}
use efp.Transfer.{
  Frame, IsFrame, IsFragment, full, tail3, last, last_no, last_start, last_size, part, header1,
  header2, header3,
}
use efp.Transfer.Count.{update_self}
use efp.Transfer.Collected.{Collected}
use efp.Transfer.Filling.{Fills, fill_type1-Fills, fill_type3-Fills}
use efp.Transfer.FillingLast.{fill_type2-Fills}
use efp.Transfer.Receiving.{
  slot, bucket_of, Holds, Kept, packet1, packet2, packet3, unpack1_held, unpack2_held, unpack3_held,
  repeat1, repeat2, repeat3,
}
use efp.Transfer.Dispatch.{answered, receive_type1, receive_type2, receive_type3}

-- The answer to a fragment that the receiver has, or has not.
abbrev pub answer_to : Bool → ElasticFrameMessages
answer_to old = if old then duplicate_packet_received else no_error

-- What the receiver does with a packet: its answer, and the fragments that it has then.
pub record Accepts (g : Frame) (env : Env) (r : ElasticFrameProtocolReceiver) (p : List ℕ)
    (source : ℕ) (m : ElasticFrameMessages) (f : ℕ → Bool) (entries : List (ℕ × ℕ)) : Type 0 where
  pub after : ElasticFrameProtocolReceiver
  pub result : receive_fragment_from_ptr env r p source ≡ answered m after
  pub holds : Holds g after f
  pub entries_are : after.bucket_map ≡ entries
  pub kept : Kept r after
  pub others : (j : ℕ) → (slot g == j) ≡ false → after.bucket_list j ≡ r.bucket_list j

-- The map behind the first packet of a frame.
abbrev pub claimed : Frame → ElasticFrameProtocolReceiver → List (ℕ × ℕ)
claimed g r = insert (super_frame_recalculator r g.number).0 (slot g) r.bucket_map

module _ (g : Frame) (v : IsFrame g) (env : Env) (r : ElasticFrameProtocolReceiver)
    (source : ℕ) where
  after_fill :
      {f : ℕ → Bool} (i : ℕ) {res : Option (ElasticFrameMessages × ElasticFrameProtocolReceiver)}
      → Fills g r (slot g) (bucket_of r g) i res
      → Holds g r f
      → (r' : ElasticFrameProtocolReceiver) × (res ≡ some (no_error, r'))
        × Holds g r' (update f i true)
        × ((j : ℕ) → (slot g == j) ≡ false → r'.bucket_list j ≡ r.bucket_list j)
        × (r'.bucket_map ≡ r.bucket_map)
        × Kept r r'
  after_fill i o h =
      let here : update r.bucket_list (slot g) o.after (slot g) ≡ o.after =
        update_self r.bucket_list (slot g) o.after in
      (
        set_bucket (record r { streams = o.streams }) (slot g) o.after,
        o.result,
        record {
          running = record {
            worker = h.running.worker;
            delivery = h.running.delivery;
            mode = h.running.mode;
          };
          collected = subst (λ c. Collected g c) (sym here) o.collected;
          received_is =
              ap (λ (c : Bucket). c.have_received_fragment) here
              ∙ o.received_is
              ∙ ap (λ (k : ℕ → Bool). update k i true) h.received_is;
        },
        (λ j e. rw e),
        refl,
        record { timeout = refl; queue = refl; ready = refl },
      )

  update_old : (f : ℕ → Bool) (i : ℕ) → f i ≡ true → f ≡ update f i true
  update_old f i e = fun_ext (λ j. elim (Bool-cases (i == j)) [
    | inl same ↦ rw same (ap f (sym ((==_iff i j).0 same)) ∙ e)
    | inr other ↦ rw other
  ])

  -- From what the handler does in either case.
  accept_by :
      (p : List ℕ) (i : ℕ) (f : ℕ → Bool)
      (res : Option (ElasticFrameMessages × ElasticFrameProtocolReceiver))
      → ((m : ElasticFrameMessages) (r' : ElasticFrameProtocolReceiver)
          → is_threaded r'.current_mode ≡ true
          → res ≡ some (m, r')
          → receive_fragment_from_ptr env r p source ≡ answered m r')
      → ((bucket_of r g).have_received_fragment i ≡ false
          → Fills g r (slot g) (bucket_of r g) i res)
      → ((bucket_of r g).have_received_fragment i ≡ true
          → res ≡ some (duplicate_packet_received, r))
      → Holds g r f
      → Accepts g env r p source (answer_to (f i)) (update f i true) r.bucket_map
  accept_by p i f res receive fill repeat held =
      let at_i : (bucket_of r g).have_received_fragment i ≡ f i =
        ap (λ (k : ℕ → Bool). k i) held.received_is in
      elim (Bool-cases (f i)) [
        | inl old ↦ record {
          after = r;
          result =
              rw old (receive duplicate_packet_received r held.running.mode (repeat (at_i ∙ old)));
          holds = subst (λ k. Holds g r k) (update_old f i old) held;
          entries_are = refl;
          kept = record { timeout = refl; queue = refl; ready = refl };
          others = λ j e. refl;
        }
        | inr new ↦
            let (r', e, holds, others, entries, kept) = after_fill i (fill (at_i ∙ new)) held in
            record {
              after = r';
              result = rw new (receive no_error r' holds.running.mode e);
              holds = holds;
              entries_are = entries;
              kept = kept;
              others = others;
            }
      ]

  -- A packet of a frame whose bucket is in use: a new fragment is added to those received, a repeated
  -- one is answered as a duplicate and changes nothing; in both cases the bucket goes on collecting the
  -- frame, and no other bucket and no entry of the map changes.
  pub accept_next :
      {p : List ℕ} {i : ℕ} {f : ℕ → Bool}
      → IsFragment g p i
      → Holds g r f
      → Accepts g env r p source (answer_to (f i)) (update f i true) r.bucket_map
  accept_next {f = f} (full i h) held =
      let k : Collected g (bucket_of r g) = held.collected in
      accept_by (packet1 g i) i f
        (fill_type1 r (packet1 g i) (header1 g i) (slot g) (bucket_of r g))
        (λ m r' mode e.
          receive_type1 g v env r source held.running (part g (i * g.fragment_size) g.fragment_size)
            mode i (unpack1_held g v env r source i h k ∙ e))
        (λ new. fill_type1-Fills g v r (slot g) (bucket_of r g) k i h new)
        (λ old. repeat1 g v env r source i h k old) held
  accept_next {f = f} (tail3 needed) held =
      let k : Collected g (bucket_of r g) = held.collected in
      accept_by (packet3 g) g.whole f
        (fill_type3 r (packet3 g) (header3 g) (slot g) (bucket_of r g))
        (λ m r' mode e.
          receive_type3 g v env r source held.running (part g (g.whole * g.fragment_size) g.tail)
            mode (unpack3_held g v env r source k ∙ e))
        (λ new. fill_type3-Fills g v r (slot g) (bucket_of r g) k needed new)
        (λ old. repeat3 g v env r source k needed old) held
  accept_next {f = f} last held =
      let k : Collected g (bucket_of r g) = held.collected in
      accept_by (packet2 g) (last_no g) f
        (fill_type2 r (packet2 g) (header2 g) (slot g) (bucket_of r g))
        (λ m r' mode e.
          receive_type2 g v env r source held.running (part g (last_start g) (last_size g)) mode
            (unpack2_held g v env r source k ∙ e))
        (λ new. fill_type2-Fills g v r (slot g) (bucket_of r g) k new)
        (λ old. repeat2 g v env r source k old) held
