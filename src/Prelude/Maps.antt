-- ===== src/Prelude/Maps.antt =====
-- Arrays as functions, and std::map<uint64_t, T> as an association list in ascending key order.
use Prim.Native.Nat.{ℕ, ◌+◌, ◌≤◌, ◌<◌}
use mathlib.Core.Option.{Option, none, some}
use mathlib.Core.List.{List, [], ◌∷◌}
use mathlib.Core.Path.{◌≡◌, refl}
use mathlib.Core.Logic.{inl, inr}
use mathlib.Core.Bool.{false}
use native.Mathlib.Omega.{arith}
use efp.Prelude.Tests.{◌==◌, if◌then◌else◌, ltb, Bool-cases}

module _ {ℓ} {V : Type ℓ} where
  -- a[k] = v
  abbrev pub update : (ℕ → V) → ℕ → V → ℕ → V
  update f k v j = if k == j then v else f j

  unfoldable pub lookup : ℕ → List (ℕ × V) → Option V
  lookup key [] = none
  lookup key ((at, value) ∷ rest) = if at == key then some value else lookup key rest

  -- map[k] = v
  unfoldable pub insert : ℕ → V → List (ℕ × V) → List (ℕ × V)
  insert key value [] = (key, value) ∷ []
  insert key value ((at, old) ∷ rest) =
      if key == at
      then (key, value) ∷ rest
      else if ltb key at
      then (key, value) ∷ (at, old) ∷ rest
      else (at, old) ∷ insert key value rest

  unfoldable pub erase : ℕ → List (ℕ × V) → List (ℕ × V)
  erase k [] = []
  erase k ((j, v) ∷ m) = if j == k then erase k m else (j, v) ∷ erase k m

  -- What an entry put in, or taken out, does to the value found at any key.
  pub lookup-insert :
      (rest : List (ℕ × V)) (key : ℕ) (value : V) (other : ℕ)
      → lookup other (insert key value rest)
        ≡ (if key == other then some value else lookup other rest)
  unfolding insert lookup
  lookup-insert [] key value other = ground arith
  lookup-insert ((at, old) ∷ rest) key value other =
      ground (arith, lookup-insert rest key value other)

  pub lookup-erase :
      (rest : List (ℕ × V)) (key other : ℕ)
      → lookup other (erase key rest) ≡ (if key == other then none else lookup other rest)
  unfolding erase lookup
  lookup-erase [] key other = ground arith
  lookup-erase ((at, old) ∷ rest) key other = ground (arith, lookup-erase rest key other)

  -- The keys ascend, from `low` on.
  pub data Ascending : ℕ → List (ℕ × V) → Type ℓ where
    no_more_keys : {low : ℕ} → Ascending low []
    next_key :
        {low key : ℕ} {value : V} {rest : List (ℕ × V)}
        → low ≤ key
        → Ascending (key + 1) rest
        → Ascending low ((key, value) ∷ rest)

  pub Ascending-lower :
      {low low' : ℕ} {m : List (ℕ × V)} → Ascending low m → low' ≤ low → Ascending low' m
  Ascending-lower no_more_keys h = no_more_keys
  Ascending-lower (next_key above rest) h = next_key (omega (arith, above, h)) rest

  pub lookup_below :
      {low : ℕ} {m : List (ℕ × V)} (key : ℕ) → Ascending low m → key < low → lookup key m ≡ none
  unfolding lookup
  lookup_below key no_more_keys h = refl
  lookup_below key (next_key {key = at} above rest) h =
      let other : at == key ≡ false = ground (arith, above, h) in
      rw other (lookup_below key rest (omega (arith, above, h)))

  pub Ascending-insert :
      {low : ℕ} {m : List (ℕ × V)} (key : ℕ) (value : V)
      → Ascending low m
      → low ≤ key
      → Ascending low (insert key value m)
  unfolding insert
  Ascending-insert key value no_more_keys h = next_key h no_more_keys
  Ascending-insert key value (next_key {key = at} above rest) h = elim (Bool-cases (key == at)) [
    | inl same ↦ rw same (next_key h (Ascending-lower rest (ground (arith, same))))
    | inr other ↦ elim (Bool-cases (ltb key at)) [
      | inl less ↦ rw (other, less) (next_key h (next_key (ground (arith, less)) rest))
      | inr more ↦
          rw (other, more)
            (next_key above (Ascending-insert key value rest (ground (arith, other, more))))
    ]
  ]

  pub Ascending-erase :
      {low : ℕ} {m : List (ℕ × V)} (key : ℕ) → Ascending low m → Ascending low (erase key m)
  unfolding erase
  Ascending-erase key no_more_keys = no_more_keys
  Ascending-erase key (next_key {key = at} above rest) = elim (Bool-cases (at == key)) [
    | inl same ↦ rw same (Ascending-lower (Ascending-erase key rest) (omega (arith, above)))
    | inr other ↦ rw other (next_key above (Ascending-erase key rest))
  ]
