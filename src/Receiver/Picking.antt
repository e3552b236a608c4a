-- ===== src/Receiver/Picking.antt =====
-- The loop of a pass over buckets that all have a frame, in both modes, and the entries that it picks.
use efp.Prelude.{
  ℕ, ◌+◌, ◌≤◌, ◌<◌, ◌≡◌, refl, sym, ap, ◌∙◌, arith, Bool, true, false, not, ◌&&◌, Option, some,
  List, [], ◌∷◌, ◌++◌, ◌==◌, if◌then◌else◌, Bool-cases, inl, inr, lookup, lookup_below, Ascending,
  no_more_keys, next_key, ◌>>=◌,
}
use mathlib.Core.List.{append_assoc, append-nil}
use efp.Receiver.{ElasticFrameProtocolReceiver}
use efp.Frames.{SuperFrame, Env}
use efp.Receiver.Deliver.{
  hand_over, assemble, Pass, Verdict, skip, deliver, block, judge, set_head, pass_loop,
}
use efp.Receiver.Kept.{Holds}
use efp.Receiver.Passes.{Stocked, empty, entry, keys, frames, assemble_lem}

-- Some entries of the map, in its order, from the number `low` on.
pub data Picked (m : List (ℕ × ℕ)) : ℕ → List (ℕ × ℕ) → Type 0 where
  no_pick : {low : ℕ} → Picked m low []
  pick :
      {low key i : ℕ} {rest : List (ℕ × ℕ)}
      → low ≤ key
      → lookup key m ≡ some i
      → Picked m (key + 1) rest
      → Picked m low ((key, i) ∷ rest)

pub Picked-lower :
    {m picks : List (ℕ × ℕ)} {low low' : ℕ} → Picked m low picks → low' ≤ low → Picked m low' picks
Picked-lower no_pick h = no_pick
Picked-lower (pick above there rest) h = pick (omega (arith, above, h)) there rest

-- The entries behind the first one are entries of the map.
pub Picked-behind :
    {m : List (ℕ × ℕ)} {key i : ℕ} (low : ℕ) (picks : List (ℕ × ℕ))
    → key < low
    → Picked m low picks
    → Picked ((key, i) ∷ m) low picks
unfolding lookup
Picked-behind low [] h no_pick = no_pick
Picked-behind {key = key} low ((key', i') ∷ rest) h (pick above there more) =
    let other : key == key' ≡ false = ground (arith, h, above) in
    pick above (rw other there) (Picked-behind (key' + 1) rest (omega (arith, h, above)) more)

-- Every entry of a map in order has a frame.
pub kept-Stocked :
    (r : ElasticFrameProtocolReceiver) (low : ℕ) (m : List (ℕ × ℕ))
    → Ascending low m
    → ((key i : ℕ) → lookup key m ≡ some i → Holds (r.bucket_list i) key i)
    → Stocked r m
unfolding lookup
kept-Stocked r low [] no_more_keys holds = empty
kept-Stocked r low ((key, i) ∷ rest) (next_key above more) holds =
    let here = holds key i (ground arith) in
    entry here.frame here.has_frame (
      kept-Stocked r (key + 1) rest more (λ key' i' found.
        let other : key == key' ≡ false = elim (Bool-cases (key == key')) [
          | inl same ↦
              absurd (ground (arith, found, same, lookup_below key' more (ground (arith, same))))
          | inr other ↦ other
        ] in
        holds key' i' (rw other found)))

-- What a pass over some entries adds to its lists.
pub record Picks (r : ElasticFrameProtocolReceiver) (low : ℕ) (m : List (ℕ × ℕ)) (s out : Pass)
    : Type 0 where
  pub picks : List (ℕ × ℕ)
  pub picked : Picked m low picks
  pub delivered_is : out.delivered ≡ s.delivered ++ frames r picks
  pub deletes : out.delete_list ≡ s.delete_list ++ keys picks

module _ (env : Env) (r : ElasticFrameProtocolReceiver) (start : Bool) where
  abbrev Goes : ℕ → List (ℕ × ℕ) → Pass → Option Pass → Type 0
  Goes low m s o = (out : Pass) × (o ≡ some out) × Picks r low m s out

  nothing : (low : ℕ) (m : List (ℕ × ℕ)) (s : Pass) → Goes low m s (some s)
  nothing low m s = (
    s,
    refl,
    record {
      picks = [];
      picked = no_pick;
      delivered_is = sym (append-nil s.delivered);
      deletes = sym (append-nil s.delete_list);
    },
  )

  -- Behind the verdict on an entry.
  pub by_verdict :
      (low key i : ℕ) (rest : List (ℕ × ℕ)) (frame : SuperFrame) (s : Pass) (v : Verdict)
      → low ≤ key
      → (r.bucket_list i).bucket_data ≡ some frame
      → ((s' : Pass) → Goes (key + 1) rest s' (pass_loop env r start rest s'))
      → Goes low ((key, i) ∷ rest) s (elim v [
        | block ↦ some s
        | skip ↦ pass_loop env r start rest s
        | deliver next ↦ do
          frame ← assemble (r.bucket_list i)
          pass_loop env r start rest (record s {
            next_expected = next;
            delivered = s.delivered ++ (frame ∷ []);
            delete_list = s.delete_list ++ (key ∷ []);
          })
      ])
  unfolding lookup
  by_verdict low key i rest frame s block above e go_on = nothing low ((key, i) ∷ rest) s
  by_verdict low key i rest frame s skip above e go_on =
      let (out, same, more) = go_on s in
      (
        out,
        same,
        record {
          picks = more.picks;
          picked =
              Picked-lower (Picked-behind (key + 1) more.picks (omega arith) more.picked)
                (omega (arith, above));
          delivered_is = more.delivered_is;
          deletes = more.deletes;
        },
      )
  by_verdict low key i rest frame s (deliver next) above e go_on =
      let b = r.bucket_list i in
      let (made, at_i) = assemble_lem b frame e in
      let (out, same, more) = go_on (record s {
        next_expected = next;
        delivered = s.delivered ++ (hand_over b frame ∷ []);
        delete_list = s.delete_list ++ (key ∷ []);
      }) in
      (
        out,
        rw made same,
        record {
          picks = (key, i) ∷ more.picks;
          picked =
              pick above (ground arith)
                (Picked-behind (key + 1) more.picks (omega arith) more.picked);
          delivered_is =
              more.delivered_is
              ∙ append_assoc s.delivered (hand_over b frame ∷ []) (frames r more.picks)
              ∙ rw at_i refl;
          deletes = more.deletes ∙ append_assoc s.delete_list (key ∷ []) (keys more.picks);
        },
      )

  pub set_head_lem :
      (c : Bool) (m : List (ℕ × ℕ)) (s : Pass)
      → let s1 = if c then set_head r m s else s in
        (s1.delivered ≡ s.delivered) × (s1.delete_list ≡ s.delete_list)
  unfolding set_head
  set_head_lem false m s = (refl, refl)
  set_head_lem true [] s = (refl, refl)
  set_head_lem true (x ∷ rest) s = (refl, refl)

  blocked_or :
      (c : Bool) (low : ℕ) (m : List (ℕ × ℕ)) (s : Pass) (o : Option Pass)
      → Goes low m s o
      → Goes low m s (if c then some s else o)
  blocked_or true low m s o h = nothing low m s
  blocked_or false low m s o h = h

  -- A pass over entries in order that all have a frame.
  pub pass_loop_picks :
      (low : ℕ) (m : List (ℕ × ℕ)) (s : Pass)
      → Ascending low m
      → Stocked r m
      → Goes low m s (pass_loop env r start m s)
  unfolding pass_loop
  pass_loop_picks low [] s no_more_keys empty = nothing low [] s
  pass_loop_picks low ((key, i) ∷ rest) s (next_key above more) (entry frame e stocked) =
      let hol = r.head_of_line_blocking_timeout_ms in
      let c = s.first_run && not (hol == 0) in
      let s1 = if c then set_head r r.bucket_map s else s in
      let (out, same, x) =
        by_verdict low key i rest frame s1 (judge env hol s1.next_expected (r.bucket_list i)) above
          e (λ s'. pass_loop_picks (key + 1) rest s' more stocked) in
      blocked_or (s.first_run && (not (hol == 0) && not start)) low ((key, i) ∷ rest) s _ (
        out,
        same,
        record {
          picks = x.picks;
          picked = x.picked;
          delivered_is =
              x.delivered_is
              ∙ ap (λ (l : List SuperFrame). l ++ frames r x.picks)
                  (set_head_lem c r.bucket_map s).0;
          deletes =
              x.deletes ∙ ap (λ (l : List ℕ). l ++ keys x.picks) (set_head_lem c r.bucket_map s).1;
        },
      )
