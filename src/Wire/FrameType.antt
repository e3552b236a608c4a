-- ===== src/Wire/FrameType.antt =====
-- The first byte of a packet: the type in its low half, the flags in its high half.
use efp.Prelude.{ℕ, ◌<◌, ◌≡◌, refl, ◌&&◌, true, Bool, bit_and, bit_or, arith, ◌==◌, ltb}
use efp.Prelude.Bytes.{holds_below, holds_below_lem}

splits : ℕ → ℕ → Bool
splits t flags =
    let b = bit_or t (bit_and flags 0xf0) in
    (bit_and b 0x0f == t) && ((bit_and b 0xf0 == bit_and flags 0xf0) && ltb b 256)

-- The byte `type | (flags & 0xf0)`, for the types that the sender uses.
pub record Splits (t flags : ℕ) : Type 0 where
  pub low : bit_and (bit_or t (bit_and flags 0xf0)) 0x0f ≡ t
  pub high : bit_and (bit_or t (bit_and flags 0xf0)) 0xf0 ≡ bit_and flags 0xf0
  pub fits : bit_or t (bit_and flags 0xf0) < 256

splits-Splits : (t flags : ℕ) → splits t flags ≡ true → Splits t flags
unfolding splits
splits-Splits t flags h = record { low = ground arith; high = ground arith; fits = ground arith }

module _ (t : ℕ) where
  splits_all-Splits : holds_below (splits t) 256 ≡ true → (flags : ℕ) → flags < 256 → Splits t flags
  splits_all-Splits e flags h = splits-Splits t flags (holds_below_lem (splits t) e h)

pub type1-Splits : (flags : ℕ) → flags < 256 → Splits 1 flags
unfolding holds_below splits
type1-Splits = splits_all-Splits 1 refl

pub type2-Splits : (flags : ℕ) → flags < 256 → Splits 2 flags
unfolding holds_below splits
type2-Splits = splits_all-Splits 2 refl

pub type3-Splits : (flags : ℕ) → flags < 256 → Splits 3 flags
unfolding holds_below splits
type3-Splits = splits_all-Splits 3 refl
