-- ===== src/Prelude/Bytes.antt =====
-- Little-endian fields, and the masks on one byte (tables of at most 256 entries).
use Prim.Native.Nat.{ℕ, zero, suc, ◌+◌, ◌*◌, ◌/◌, ◌%◌, ◌^◌, ◌<◌, bit_and}
use mathlib.Core.Path.{◌≡◌, refl}
use mathlib.Core.Bool.{Bool, true, false}
use mathlib.Core.List.{List, [], ◌∷◌, ◌++◌}
use native.Mathlib.Omega.{arith}
use efp.Prelude.Tests.{◌==◌, ==_iff, if◌then◌else◌, Bool-cases}
use mathlib.Core.Logic.{inl, inr}
use efp.Prelude.Lists.{length, drop}

-- The low `k` bytes of `n`, as they stand in memory.
unfoldable pub le_bytes : ℕ → ℕ → List ℕ
le_bytes zero n = []
le_bytes (suc k) n = n % 256 ∷ le_bytes k (n / 256)

-- A field of `k` bytes read from memory; 0 for what lies past its end.
unfoldable pub le_value : ℕ → List ℕ → ℕ
le_value zero bs = 0
le_value (suc k) [] = 0
le_value (suc k) (b ∷ bs) = b + 256 * le_value k bs

pub length-le_bytes : (k n : ℕ) → length (le_bytes k n) ≡ k
unfolding le_bytes
length-le_bytes zero n = refl
length-le_bytes (suc k) n = omega (arith, length-le_bytes k (n / 256))

-- A field reads back as it was written, whatever follows it.
pub le_value-le_bytes :
    (k n : ℕ) (rest : List ℕ) → n < 256 ^ k → le_value k (le_bytes k n ++ rest) ≡ n
unfolding le_bytes le_value
le_value-le_bytes zero n rest h = omega arith
le_value-le_bytes (suc k) n rest h = omega (arith, le_value-le_bytes k (n / 256) rest (omega arith))

-- Does a test succeed at every number below a bound?
unfoldable pub holds_below : (ℕ → Bool) → ℕ → Bool
holds_below test zero = true
holds_below test (suc bound) = if test bound then holds_below test bound else false

pub holds_below_lem :
    (test : ℕ → Bool) {bound n : ℕ} → holds_below test bound ≡ true → n < bound → test n ≡ true
unfolding holds_below
holds_below_lem test {bound = zero} all less = absurd (ground (arith, less))
holds_below_lem test {bound = suc bound} {n = n} all less = elim (Bool-cases (n == bound)) [
  | inl same ↦ ground arith
  | inr other ↦ holds_below_lem test {bound = bound} (ground arith) (ground arith)
]

low_table : holds_below (λ b. bit_and b 0x0f == b % 16) 256 ≡ true
unfolding holds_below
low_table = refl

pub low_nibble : (b : ℕ) → b < 256 → bit_and b 0x0f ≡ b % 16
low_nibble b h = (==_iff _ _).0 (holds_below_lem _ low_table h)

high_table : holds_below (λ b. bit_and b 0xf0 == b / 16 * 16) 256 ≡ true
unfolding holds_below
high_table = refl

pub high_nibble : (b : ℕ) → b < 256 → bit_and b 0xf0 ≡ b / 16 * 16
high_nibble b h = (==_iff _ _).0 (holds_below_lem _ high_table h)

-- Bytes as they come from a network.
pub data AllBytes : List ℕ → Type 0 where
  no_bytes : AllBytes []
  one_byte : {b : ℕ} {rest : List ℕ} → b < 256 → AllBytes rest → AllBytes (b ∷ rest)

pub drop-AllBytes : (n : ℕ) {l : List ℕ} → AllBytes l → AllBytes (drop n l)
drop-AllBytes zero h = h
drop-AllBytes (suc n) no_bytes = no_bytes
drop-AllBytes (suc n) (one_byte b h) = drop-AllBytes n h

pub le_value_fits : (k : ℕ) {l : List ℕ} → AllBytes l → le_value k l < 256 ^ k
unfolding le_value
le_value_fits zero h = omega arith
le_value_fits (suc k) no_bytes = omega (arith, le_value_fits k no_bytes)
le_value_fits (suc k) (one_byte b h) = omega (arith, b, le_value_fits k h)
