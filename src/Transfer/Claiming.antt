-- ===== src/Transfer/Claiming.antt =====
-- The first packet of a frame at the receiver claims a bucket.
use efp.Prelude.{ℕ, ◌*◌, ◌≡◌, refl, ap, ◌∙◌, false, Option, some, List, ◌==◌, insert}
use efp.Message.{ElasticFrameMessages, no_error}
use efp.Receiver.{ElasticFrameProtocolReceiver, Bucket, super_frame_recalculator}
use efp.Frames.{Env}
use efp.Transfer.{
  Frame, IsFrame, IsFragment, full, tail3, last, last_no, last_start, last_size, part,
}
use efp.Transfer.Opening.{Grants, Opens, first}
use efp.Transfer.OpeningFull.{open_type1-Opens}
use efp.Transfer.OpeningTail.{open_type3-Opens}
use efp.Transfer.OpeningLast.{open_type2-Opens}
use efp.Transfer.Receiving.{
  slot, bucket_of, Free, Holds, recalculator-Running, recalculator-buckets, recalculator-map,
  recalculator-Kept, Kept, Kept-trans, unpack1-Free, unpack2-Free, unpack3-Free,
}
use efp.Transfer.Dispatch.{Running, receive_type1, receive_type2, receive_type3}
use efp.Transfer.Accepting.{Accepts, claimed}

module _ (g : Frame) (v : IsFrame g) (env : Env) (r : ElasticFrameProtocolReceiver)
    (source : ℕ) where
  after_open :
      (i : ℕ) {res : Option (ElasticFrameMessages × ElasticFrameProtocolReceiver)}
      → Opens g
          (super_frame_recalculator r g.number).1
          (slot g)
          (super_frame_recalculator r g.number).0
          i
          res
      → Running r
      → (r' : ElasticFrameProtocolReceiver) × (res ≡ some (no_error, r'))
        × Holds g r' (first i)
        × ((j : ℕ) → (slot g == j) ≡ false → r'.bucket_list j ≡ r.bucket_list j)
        × (r'.bucket_map ≡ claimed g r)
        × Kept r r'
  after_open i o run =
      let moved : ElasticFrameProtocolReceiver = (super_frame_recalculator r g.number).1 in
      let run' : Running moved = recalculator-Running r g.number run in
      (
        record moved {
          streams = o.streams;
          bucket_map = insert (super_frame_recalculator r g.number).0 (slot g) moved.bucket_map;
          bucket_list = o.buckets;
        },
        o.result,
        record {
          running = record { worker = run'.worker; delivery = run'.delivery; mode = run'.mode };
          collected = o.collected;
          received_is = o.received_is;
        },
        λ j e. o.others j e ∙ ap (λ (l : ℕ → Bucket). l j) (recalculator-buckets r g.number),
        ap (insert (super_frame_recalculator r g.number).0 (slot g)) (recalculator-map r g.number),
        Kept-trans r moved _ (recalculator-Kept r g.number)
            (record { timeout = refl; queue = refl; ready = refl }),
      )

  -- The first packet of a frame, whichever it is, claims the free bucket that its number selects.
  pub accept_first :
      {p : List ℕ} {i : ℕ}
      → IsFragment g p i
      → Free g r
      → Grants env
      → Accepts g env r p source no_error (first i) (claimed g r)
  accept_first (full i h) free grants =
      let (r', e, holds, others, entries, kept) =
        after_open i
          (open_type1-Opens g v env grants (super_frame_recalculator r g.number).1 source (slot g)
            (bucket_of r g) (super_frame_recalculator r g.number).0 i h)
          free.running in
      record {
        after = r';
        result =
            receive_type1 g v env r source free.running
              (part g (i * g.fragment_size) g.fragment_size) holds.running.mode i
              (unpack1-Free g v env r source i h free ∙ e);
        holds = holds;
        entries_are = entries;
        kept = kept;
        others = others;
      }
  accept_first (tail3 needed) free grants =
      let (r', e, holds, others, entries, kept) =
        after_open g.whole
          (open_type3-Opens g v env grants (super_frame_recalculator r g.number).1 source (slot g)
            (bucket_of r g) (super_frame_recalculator r g.number).0 needed)
          free.running in
      record {
        after = r';
        result =
            receive_type3 g v env r source free.running (part g (g.whole * g.fragment_size) g.tail)
              holds.running.mode (unpack3-Free g v env r source free ∙ e);
        holds = holds;
        entries_are = entries;
        kept = kept;
        others = others;
      }
  accept_first last free grants =
      let (r', e, holds, others, entries, kept) =
        after_open (last_no g)
          (open_type2-Opens g v env grants (super_frame_recalculator r g.number).1 source (slot g)
            (bucket_of r g) (super_frame_recalculator r g.number).0)
          free.running in
      record {
        after = r';
        result =
            receive_type2 g v env r source free.running (part g (last_start g) (last_size g))
              holds.running.mode (unpack2-Free g v env r source free ∙ e);
        holds = holds;
        entries_are = entries;
        kept = kept;
        others = others;
      }
