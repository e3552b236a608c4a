-- ===== src/Receiver/Kept.antt =====
-- The map and the buckets of a receiver, and what each kind of update does to them: a bucket is
-- entered, dropped, or changed where it stands.
use efp.Prelude.{
  ℕ, ◌%◌, ◌≡◌, sym, ap, subst, ◌∙◌, arith, true, false, some, List, ◌==◌, ==_iff, if_true, if_false,
  Bool-cases, inl, inr, update, lookup, insert, erase, lookup-insert, lookup-erase, Ascending,
  Ascending-insert, Ascending-erase,
}
use efp.Receiver.{Bucket}
use efp.Frames.{SuperFrame}

-- A bucket in use for the frame with the 64-bit number `key`, at its place in the array.
pub record Holds (b : Bucket) (key i : ℕ) : Type 0 where
  pub in_use : b.active ≡ true
  pub order_is : b.delivery_order ≡ key
  pub place_is : key % 8192 ≡ i
  pub frame : SuperFrame
  pub has_frame : b.bucket_data ≡ some frame

-- The map is in order, each of its entries points to a bucket that is in use for that number, and
-- each bucket in use is found under its number.
pub record Kept (m : List (ℕ × ℕ)) (buckets : ℕ → Bucket) : Type 0 where
  pub ascending : Ascending 0 m
  pub entry_holds : (key i : ℕ) → lookup key m ≡ some i → Holds (buckets i) key i
  pub entry_found :
      (i : ℕ) → (buckets i).active ≡ true → lookup (buckets i).delivery_order m ≡ some i

module _ (m : List (ℕ × ℕ)) (buckets : ℕ → Bucket) (k : Kept m buckets) where
  -- One bucket is replaced, and the entries that point to other buckets stay.
  replace-Kept :
      (m' : List (ℕ × ℕ)) (i : ℕ) (b : Bucket)
      → Ascending 0 m'
      → ((key j : ℕ)
          → i == j ≡ false
          → (lookup key m' ≡ some j → lookup key m ≡ some j)
            × (lookup key m ≡ some j → lookup key m' ≡ some j))
      → ((key : ℕ) → lookup key m' ≡ some i → Holds b key i)
      → (b.active ≡ true → lookup b.delivery_order m' ≡ some i)
      → Kept m' (update buckets i b)
  replace-Kept m' i b up others here found_here = record {
    ascending = up;
    entry_holds = λ key j found. elim (Bool-cases (i == j)) [
      | inl same ↦
          let e : i ≡ j = (==_iff i j).0 same in
          subst (λ x. Holds x key j) (sym (if_true same (buckets j)))
            (subst (λ x. Holds b key x) e (here key (rw e found)))
      | inr other ↦
          subst (λ x. Holds x key j) (sym (if_false other b))
            (k.entry_holds key j ((others key j other).0 found))
    ];
    entry_found = λ j used. elim (Bool-cases (i == j)) [
      | inl same ↦
          let e : i ≡ j = (==_iff i j).0 same in
          let at_j : update buckets i b j ≡ b = if_true same (buckets j) in
          ap (λ (x : Bucket). lookup x.delivery_order m') at_j
          ∙ found_here (sym (ap (λ (x : Bucket). x.active) at_j) ∙ used)
          ∙ ap (λ (x : ℕ). some x) e
      | inr other ↦
          let at_j : update buckets i b j ≡ buckets j = if_false other b in
          ap (λ (x : Bucket). lookup x.delivery_order m') at_j
          ∙ (others (buckets j).delivery_order j other).1
              (k.entry_found j (sym (ap (λ (x : Bucket). x.active) at_j) ∙ used))
    ];
  }

  -- An entry for another place has another number.
  elsewhere :
      (key i key' j : ℕ)
      → key % 8192 ≡ i
      → lookup key' m ≡ some j
      → i == j ≡ false
      → key == key' ≡ false
  elsewhere key i key' j place found other =
      let place' = (k.entry_holds key' j found).place_is in ground (arith, place, place', other)

  -- Two entries for one place are one.
  pub one_entry : (key key' i : ℕ) → lookup key m ≡ some i → lookup key' m ≡ some i → key ≡ key'
  one_entry key key' i there there' =
      sym (k.entry_holds key i there).order_is ∙ (k.entry_holds key' i there').order_is

  -- A free bucket has no entry.
  not_found : (key i : ℕ) → (buckets i).active ≡ false → lookup key m ≡ some i → ⊥
  not_found key i free there = ground (arith, free, (k.entry_holds key i there).in_use)

  -- What is entered stands at a place that was free.
  pub enter-Kept :
      (key i : ℕ) (b : Bucket)
      → (buckets i).active ≡ false
      → Holds b key i
      → Kept (insert key i m) (update buckets i b)
  enter-Kept key i b free holds =
      replace-Kept (insert key i m) i b (Ascending-insert key i k.ascending (omega arith))
        (λ key' j other. (
          λ found. ground (arith, lookup-insert m key i key', found, other),
          λ found.
              let differs = elsewhere key i key' j holds.place_is found other in
              ground (arith, lookup-insert m key i key', found, differs),
        ))
        (λ key' found. elim (Bool-cases (key == key')) [
          | inl same ↦ subst (λ x. Holds b x i) ((==_iff key key').0 same) holds
          | inr differs ↦
              absurd
                (not_found key' i free (ground (arith, lookup-insert m key i key', found, differs)))
        ])
        (λ used.
          ap (λ x. lookup x (insert key i m)) holds.order_is
          ∙ ground (arith, lookup-insert m key i key))

  -- A bucket in use leaves the map, and is free.
  pub drop-Kept :
      (key i : ℕ) (b : Bucket)
      → lookup key m ≡ some i
      → b.active ≡ false
      → Kept (erase key m) (update buckets i b)
  drop-Kept key i b there free =
      replace-Kept (erase key m) i b (Ascending-erase key k.ascending)
        (λ key' j other. (
          λ found. ground (arith, lookup-erase m key key', found),
          λ found.
              let differs =
                elsewhere key i key' j (k.entry_holds key i there).place_is found other in
              ground (arith, lookup-erase m key key', found, differs),
        ))
        (λ key' found. elim (Bool-cases (key == key')) [
          | inl same ↦ absurd (ground (arith, lookup-erase m key key', found, same))
          | inr differs ↦
              let there' : lookup key' m ≡ some i =
                ground (arith, lookup-erase m key key', found, differs) in
              absurd (ground (arith, differs, one_entry key key' i there there'))
        ])
        (λ used. absurd (ground (arith, free, used)))

  -- A bucket in use changes, but for its number.
  pub change-Kept :
      (key i : ℕ) (b : Bucket) → lookup key m ≡ some i → Holds b key i → Kept m (update buckets i b)
  change-Kept key i b there holds =
      replace-Kept m i b k.ascending (λ key' j other. (λ e. e, λ e. e))
        (λ key' found. subst (λ x. Holds b x i) (one_entry key key' i there found) holds)
        (λ used. ap (λ x. lookup x m) holds.order_is ∙ there)
