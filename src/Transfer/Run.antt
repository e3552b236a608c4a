-- ===== src/Transfer/Run.antt =====
-- All packets of a frame at the receiver, one receiveFragmentFromPtr call for each: in any order, and
-- with repeats.
use efp.Prelude.{
  ℕ, suc, ◌<◌, ◌≡◌, refl, ◌∙◌, ap, arith, Bool, true, false, Option, some, List, [], ◌∷◌, update,
  ◌==◌, Bool-cases, inl, inr, ◌||◌, ◌>>=◌,
}
use efp.Message.{ElasticFrameMessages}
use efp.Receiver.{ElasticFrameProtocolReceiver, none_received}
use efp.Frames.{Env, SuperFrame}
use efp.Receiver.Receive.{receive_fragment_from_ptr}
use efp.Receiver.Deliver.{assemble, is_complete}
use efp.Transfer.{Frame, IsFrame, IsFragment, last_no}
use efp.Transfer.Opening.{Grants, first}
use efp.Transfer.Receiving.{bucket_of, Free, Holds, Kept, Kept-trans}
use efp.Transfer.Accepting.{accept_next, answer_to, claimed}
use efp.Transfer.Claiming.{accept_first}
use efp.Transfer.Delivery.{Restores, all_complete, complete-Restores}

-- A packet, with the source that it came from and the call's environment.
pub record Arrival : Type 0 where
  pub env : Env
  pub packet : List ℕ
  pub source : ℕ

-- The messages and the receiver after some arrivals.
unfoldable pub receive_all :
    ElasticFrameProtocolReceiver
    → List Arrival
    → Option (List ElasticFrameMessages × ElasticFrameProtocolReceiver)
receive_all r [] = some ([], r)
receive_all r (a ∷ rest) = do
  x ← receive_fragment_from_ptr a.env r a.packet a.source
  (messages, after) ← receive_all x.receiver rest
  some (x.message ∷ messages, after)

-- The arrivals carry the fragments with these numbers.
pub data Carry (g : Frame) : List Arrival → List ℕ → Type 0 where
  done : Carry g [] []
  next :
      {a : Arrival} {i : ℕ} {rest : List Arrival} {numbers : List ℕ}
      → IsFragment g a.packet i
      → Carry g rest numbers
      → Carry g (a ∷ rest) (i ∷ numbers)

unfoldable pub occurs : ℕ → List ℕ → Bool
occurs i [] = false
occurs i (j ∷ rest) = (j == i) || occurs i rest

-- What has arrived once these numbers have, and the answers on the way.
abbrev arrived : (ℕ → Bool) → List ℕ → ℕ → Bool
arrived f [] = f
arrived f (i ∷ rest) = arrived (update f i true) rest

pub answers : (ℕ → Bool) → List ℕ → List ElasticFrameMessages
answers f [] = []
answers f (i ∷ rest) = answer_to (f i) ∷ answers (update f i true) rest

arrived_old : (f : ℕ → Bool) (numbers : List ℕ) (i : ℕ) → f i ≡ true → arrived f numbers i ≡ true
arrived_old f [] i e = e
arrived_old f (j ∷ rest) i e = arrived_old (update f j true) rest i (ground arith)

arrived-occurs :
    (f : ℕ → Bool) (numbers : List ℕ) (i : ℕ) → occurs i numbers ≡ true → arrived f numbers i ≡ true
unfolding occurs
arrived-occurs f [] i e = absurd (ground (arith, e))
arrived-occurs f (j ∷ rest) i e = elim (Bool-cases (j == i)) [
  | inl same ↦ arrived_old (update f j true) rest i (rw same)
  | inr other ↦ arrived-occurs (update f j true) rest i (rw other at e)
]

-- Behind the first arrival.
record Follows (g : Frame) (r : ElasticFrameProtocolReceiver) (f : ℕ → Bool)
    (arrivals : List Arrival) (numbers : List ℕ) (entries : List (ℕ × ℕ)) : Type 0 where
  after : ElasticFrameProtocolReceiver
  result : receive_all r arrivals ≡ some (answers f numbers, after)
  holds : Holds g after (arrived f numbers)
  entries_are : after.bucket_map ≡ entries
  kept : Kept r after

-- The frame arrives: the answers, and what the bucket makes.
pub record Arrives (g : Frame) (r : ElasticFrameProtocolReceiver) (arrivals : List Arrival)
    (numbers : List ℕ) : Type 0 where
  pub after : ElasticFrameProtocolReceiver
  pub result : receive_all r arrivals ≡ some (answers none_received numbers, after)
  pub complete : is_complete (bucket_of after g) ≡ true
  pub frame : SuperFrame
  pub assembled : assemble (bucket_of after g) ≡ some frame
  pub restored : Restores g frame
  pub entries_are : after.bucket_map ≡ claimed g r
  pub kept : Kept r after

module _ (g : Frame) (v : IsFrame g) where
  follow :
      {arrivals : List Arrival} {numbers : List ℕ} (r : ElasticFrameProtocolReceiver) (f : ℕ → Bool)
      → Carry g arrivals numbers
      → Holds g r f
      → Follows g r f arrivals numbers r.bucket_map
  unfolding receive_all answers
  follow r f done h = record {
    after = r;
    result = refl;
    holds = h;
    entries_are = refl;
    kept = record { timeout = refl; queue = refl; ready = refl };
  }
  follow r f (next {a = a} {i = i} here rest) h =
      let x = accept_next g v a.env r a.source here h in
      let t = follow x.after (update f i true) rest x.holds in
      record {
        after = t.after;
        result = rw (x.result, t.result);
        holds = t.holds;
        entries_are = t.entries_are ∙ x.entries_are;
        kept = Kept-trans r x.after t.after x.kept t.kept;
      }

  start :
      {a : Arrival} {arrivals : List Arrival} {numbers : List ℕ} (r : ElasticFrameProtocolReceiver)
      → Carry g (a ∷ arrivals) numbers
      → Free g r
      → Grants a.env
      → Follows g r none_received (a ∷ arrivals) numbers (claimed g r)
  unfolding receive_all answers
  start {a = a} r (next {i = i} here rest) free grants =
      let x = accept_first g v a.env r a.source here free grants in
      let t = follow x.after (first i) rest x.holds in
      record {
        after = t.after;
        result = rw (x.result, t.result);
        holds = t.holds;
        entries_are = t.entries_are ∙ x.entries_are;
        kept = Kept-trans r x.after t.after x.kept t.kept;
      }

  -- Packets of a frame arrive at a receiver whose bucket for the frame is free, in any order and with
  -- repeats, and every fragment is among them: no call fails, each one answers whether its fragment
  -- was there already, the bucket is complete, and the frame that it makes is the frame sent.
  pub reassemble :
      (r : ElasticFrameProtocolReceiver) (a : Arrival) (arrivals : List Arrival) (numbers : List ℕ)
      → Carry g (a ∷ arrivals) numbers
      → ((i : ℕ) → i < suc (last_no g) → occurs i numbers ≡ true)
      → Free g r
      → Grants a.env
      → Arrives g r (a ∷ arrivals) numbers
  reassemble r a arrivals numbers carry all free grants =
      let t = start r carry free grants in
      let b = bucket_of t.after g in
      let has : b.have_received_fragment ≡ arrived none_received numbers = t.holds.received_is in
      let full : is_complete b ≡ true = all_complete g b t.holds.collected (λ i h.
        ap (λ (k : ℕ → Bool). k i) has ∙ arrived-occurs none_received numbers i (all i h)) in
      let (s, e, same) = complete-Restores g b t.holds.collected v full in
      record {
        after = t.after;
        result = t.result;
        complete = full;
        frame = s;
        assembled = e;
        restored = same;
        entries_are = t.entries_are;
        kept = t.kept;
      }
