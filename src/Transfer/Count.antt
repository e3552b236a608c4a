-- ===== src/Transfer/Count.antt =====
-- How many of the first fragments have arrived.
use efp.Prelude.{
  ℕ, zero, suc, ◌+◌, ◌≤◌, ◌<◌, ◌≡◌, refl, arith, Bool, true, false, if◌then◌else◌, update, ◌==◌,
  Bool-cases, inl, inr,
}
use mathlib.Core.Logic.{◌≢◌}
use efp.Receiver.{none_received}

pub count : (ℕ → Bool) → ℕ → ℕ
count f zero = 0
count f (suc k) = (if f k then 1 else 0) + count f k

pub update_self {ℓ} : {V : Type ℓ} (f : ℕ → V) (k : ℕ) (v : V) → update f k v k ≡ v
update_self f k v = ground arith

pub count-le : (f : ℕ → Bool) (k : ℕ) → count f k ≤ k
unfolding count
count-le f zero = omega arith
count-le f (suc k) = ground (arith, count-le f k)

pub count_all : (f : ℕ → Bool) (k i : ℕ) → count f k ≡ k → i < k → f i ≡ true
unfolding count
count_all f zero i e h = elim h [ ]
count_all f (suc k) i e h = elim (Bool-cases (f k)) [
  | inl here ↦ elim (Bool-cases (i == k)) [
    | inl same ↦ ground arith
    | inr other ↦ count_all f k i (ground arith) (ground arith)
  ]
  | inr missing ↦ absurd (ground (arith, count-le f k))
]

pub count_full : (f : ℕ → Bool) (k : ℕ) → ((i : ℕ) → i < k → f i ≡ true) → count f k ≡ k
unfolding count
count_full f zero all = refl
count_full f (suc k) all =
    ground (arith, all k (omega arith), count_full f k (λ i h. all i (omega (arith, h))))

count-update_above : (f : ℕ → Bool) (k i : ℕ) → k ≤ i → count (update f i true) k ≡ count f k
unfolding count
count-update_above f zero i h = refl
count-update_above f (suc k) i h = ground (arith, count-update_above f k i)

pub count-update :
    (f : ℕ → Bool) (k i : ℕ) → i < k → f i ≡ false → count (update f i true) k ≡ suc (count f k)
unfolding count
count-update f zero i h e = elim h [ ]
count-update f (suc k) i h e = elim (Bool-cases (i == k)) [
  | inl same ↦ ground (arith, count-update_above f k i)
  | inr other ↦ ground (arith, count-update f k i)
]

count-none : (k : ℕ) → count none_received k ≡ 0
unfolding count
count-none zero = refl
count-none (suc k) = omega (arith, count-none k)

pub count-first : (k i : ℕ) → i < k → count (update none_received i true) k ≡ 1
count-first k i h = omega (arith, count-update none_received k i h refl, count-none k)

pub received_before : (f : ℕ → Bool) (i j : ℕ) → i ≢ j → update f i true j ≡ true → f j ≡ true
received_before f i j h e = ground arith
