-- ===== src/Receiver/Clearing.antt =====
-- The buckets that a pass clears.
use efp.Prelude.{
  ℕ, ◌+◌, ◌<◌, ◌≡◌, refl, sym, ap, ◌∙◌, arith, Bool, false, ◌||◌, Option, none, some, List, [], ◌∷◌,
  ◌==◌, ==_iff, if◌then◌else◌, if_false, if_true, some_same, subst, Bool-cases, inl, inr, update,
  lookup, erase, lookup-erase,
}
use efp.Receiver.{ElasticFrameProtocolReceiver, Bucket}
use efp.Receiver.Deliver.{clear_buckets}
use efp.Receiver.Kept.{Kept, drop-Kept, one_entry}
use efp.Receiver.Passes.{keys}
use efp.Receiver.Picking.{Picked, no_pick, pick}

-- Is a number among some?
abbrev pub contains : ℕ → List ℕ → Bool
contains key [] = false
contains key (other ∷ rest) = other == key || contains key rest

-- Entries that stay when one in front of them is erased.
Picked-erase :
    (m : List (ℕ × ℕ)) (key low : ℕ) (picks : List (ℕ × ℕ))
    → key < low
    → Picked m low picks
    → Picked (erase key m) low picks
Picked-erase m key low [] h no_pick = no_pick
Picked-erase m key low ((key', i) ∷ rest) h (pick above there more) =
    pick above (ground (arith, lookup-erase m key key', there, h, above))
      (Picked-erase m key (key' + 1) rest (omega (arith, h, above)) more)

-- The receiver with other buckets.
abbrev pub with_buckets :
    ElasticFrameProtocolReceiver → List (ℕ × ℕ) → (ℕ → Bucket) → ElasticFrameProtocolReceiver
with_buckets r m buckets = record r { bucket_map = m; bucket_list = buckets }

-- The bucket is free, and remembers the number it was last used for.
pub record Freed (b : Bucket) (key : ℕ) : Type 0 where
  pub is_free : b.active ≡ false
  pub last_is : b.delivery_order ≡ key

-- What clearing some buckets leaves.
pub record Cleared (r : ElasticFrameProtocolReceiver) (picks : List (ℕ × ℕ))
    (o : Option ElasticFrameProtocolReceiver) : Type 0 where
  pub left : List (ℕ × ℕ)
  pub buckets : ℕ → Bucket
  pub kept : Kept left buckets
  pub left_is :
      (key : ℕ)
      → lookup key left ≡ (if contains key (keys picks) then none else lookup key r.bucket_map)
  pub others_stay : (key i : ℕ) → lookup key left ≡ some i → buckets i ≡ r.bucket_list i
  pub free_stay : (i : ℕ) → (r.bucket_list i).active ≡ false → buckets i ≡ r.bucket_list i
  pub freed :
      (key i : ℕ)
      → lookup key r.bucket_map ≡ some i
      → lookup key left ≡ none
      → Freed (buckets i) key
  pub goes : o ≡ some (with_buckets r left buckets)

pub clear_buckets-Cleared :
    (r : ElasticFrameProtocolReceiver) (low : ℕ) (picks : List (ℕ × ℕ))
    → Kept r.bucket_map r.bucket_list
    → Picked r.bucket_map low picks
    → Cleared r picks (clear_buckets r (keys picks))
unfolding clear_buckets
clear_buckets-Cleared r low [] kept no_pick = record {
  left = r.bucket_map;
  buckets = r.bucket_list;
  kept = kept;
  left_is = λ key. refl;
  others_stay = λ key i there. refl;
  free_stay = λ i free. refl;
  freed = λ key i there gone. absurd (ground (arith, there, gone));
  goes = refl;
}
clear_buckets-Cleared r low ((key, i) ∷ rest) kept (pick above there more) =
    let b = record (r.bucket_list i) { active = false; bucket_data = none } in
    let r1 = with_buckets r (erase key r.bucket_map) (update r.bucket_list i b) in
    let x =
      clear_buckets-Cleared r1 (key + 1) rest
        (drop-Kept r.bucket_map r.bucket_list kept key i b there refl)
        (Picked-erase r.bucket_map key (key + 1) rest (omega arith) more) in
    record {
      left = x.left;
      buckets = x.buckets;
      kept = x.kept;
      left_is = λ key'. x.left_is key' ∙ ground (arith, lookup-erase r.bucket_map key key');
      others_stay = λ key' j still.
          let there' : lookup key' (erase key r.bucket_map) ≡ some j =
            ground (arith, x.left_is key', still) in
          let before : lookup key' r.bucket_map ≡ some j =
            ground (arith, lookup-erase r.bucket_map key key', there') in
          let other : i == j ≡ false = elim (Bool-cases (i == j)) [
            | inr other ↦ other
            | inl same ↦
                let one =
                  one_entry r.bucket_map r.bucket_list kept key key' i there
                    (before ∙ ap some (sym ((==_iff i j).0 same))) in
                absurd (ground (arith, lookup-erase r.bucket_map key key', there', one))
          ] in
          x.others_stay key' j still ∙ if_false other b;
      free_stay = λ j free.
          let other : i == j ≡ false = elim (Bool-cases (i == j)) [
            | inr other ↦ other
            | inl same ↦
                let used = (kept.entry_holds key i there).in_use in
                absurd (
                  ground (
                    arith,
                    used,
                    free,
                    ap (λ (n : ℕ). (r.bucket_list n).active) ((==_iff i j).0 same),
                  ))
          ] in
          let stays : r1.bucket_list j ≡ r.bucket_list j = if_false other b in
          x.free_stay j (ap (λ (y : Bucket). y.active) stays ∙ free) ∙ stays;
      freed = λ key' j there' gone. elim (Bool-cases (key == key')) [
        | inl same ↦
            let e : key ≡ key' = (==_iff key key').0 same in
            let one : i ≡ j =
              some_same i j (sym there ∙ ap (λ (n : ℕ). lookup n r.bucket_map) e ∙ there') in
            let mine : r1.bucket_list i ≡ b = if_true ((==_iff i i).1 refl) (r.bucket_list i) in
            let b_is : x.buckets i ≡ b =
              x.free_stay i (ap (λ (y : Bucket). y.active) mine) ∙ mine in
            subst (λ n. Freed (x.buckets n) key') one
              (record {
                is_free = ap (λ (y : Bucket). y.active) b_is;
                last_is =
                    ap (λ (y : Bucket). y.delivery_order) b_is
                    ∙ (kept.entry_holds key i there).order_is
                    ∙ e;
              })
        | inr other ↦
            x.freed key' j (ground (arith, lookup-erase r.bucket_map key key', there', other)) gone
      ];
      goes = rw there x.goes;
    }
