-- ===== src/Receiver/Numbering.antt =====
-- superFrameRecalculator against the numbers that the sender meant: the sender counts frames without
-- end, and sends the count modulo 2 ^ 16.
use efp.Prelude.{
  ℕ, ◌+◌, ◌-◌, ◌%◌, ◌^◌, ◌≤◌, ◌<◌, ◌≡◌, refl, arith, false, sub_u64, ltb, leb, Bool-cases, inl, inr,
  if◌then◌else◌, if_false, ap, ◌∙◌, List, [], ◌∷◌,
}
use efp.Receiver.{ElasticFrameProtocolReceiver, super_frame_recalculator}

-- The receiver's last number is `n`, and the 16 bits that it keeps are those of `n`.
pub record At (r : ElasticFrameProtocolReceiver) (n : ℕ) : Type 0 where
  pub started : r.super_frame_first_time ≡ false
  pub number_is : r.super_frame_recalc ≡ n
  pub bits_are : r.old_super_frame_number ≡ n % 65536

abbrev distance : ℕ → ℕ → ℕ
distance k n = (k % 65536 + 65536 - n % 65536) % 65536

distance_ahead : (k n : ℕ) → n ≤ k → k < n + 32768 → distance k n ≡ k - n
distance_ahead k n h near = omega arith

distance_behind : (k n : ℕ) → k < n → n ≤ k + 32768 → distance k n ≡ 65536 - (n - k)
distance_behind k n h near = omega arith

abbrev moved_by : ℕ → ℕ → ℕ
moved_by n change = if ltb change 32768 then (n + change) % 2 ^ 64 else sub_u64 n (65536 - change)

moved_by-distance :
    (k n : ℕ)
    → k < n + 32768
    → n ≤ k + 32768
    → k < 2 ^ 64
    → n < 2 ^ 64
    → moved_by n (distance k n) ≡ k
moved_by-distance k n ahead behind fits fits' = elim (Bool-cases (leb n k)) [
  | inl forth ↦
      let e : distance k n ≡ k - n = distance_ahead k n (ground arith) ahead in rw e (ground arith)
  | inr back ↦
      let e : distance k n ≡ 65536 - (n - k) = distance_behind k n (ground arith) behind in
      rw e (ground arith)
]

-- A frame less than 2 ^ 15 ahead of the last one, or at most 2 ^ 15 behind it, gets the number that
-- its sender meant, and the receiver goes on from there.
pub recalculator_exact :
    (r : ElasticFrameProtocolReceiver) (n k : ℕ)
    → At r n
    → k < n + 32768
    → n ≤ k + 32768
    → k < 2 ^ 64
    → n < 2 ^ 64
    → ((super_frame_recalculator r (k % 65536)).0 ≡ k)
      × At (super_frame_recalculator r (k % 65536)).1 k
unfolding super_frame_recalculator
recalculator_exact r n k h ahead behind fits fits' =
    let value : moved_by r.super_frame_recalc
          ((k % 65536 + 65536 - r.old_super_frame_number) % 65536)
        ≡ k =
      rw (h.number_is, h.bits_are) (moved_by-distance k n ahead behind fits fits') in
    let branch : super_frame_recalculator r (k % 65536) ≡ (
      moved_by r.super_frame_recalc ((k % 65536 + 65536 - r.old_super_frame_number) % 65536),
      record r {
        old_super_frame_number = k % 65536;
        super_frame_recalc =
            moved_by r.super_frame_recalc ((k % 65536 + 65536 - r.old_super_frame_number) % 65536);
      },
    ) =
      if_false h.started _ in
    (
      ap (λ (x : ℕ × ElasticFrameProtocolReceiver). x.0) branch ∙ value,
      record {
        started =
            ap (λ (x : ℕ × ElasticFrameProtocolReceiver). x.1.super_frame_first_time) branch
            ∙ h.started;
        number_is =
            ap (λ (x : ℕ × ElasticFrameProtocolReceiver). x.1.super_frame_recalc) branch ∙ value;
        bits_are = ap (λ (x : ℕ × ElasticFrameProtocolReceiver). x.1.old_super_frame_number) branch;
      },
    )

-- One call after the other, for the super frame numbers of some packets.
unfoldable pub recalculate_all : ElasticFrameProtocolReceiver → List ℕ → List ℕ
recalculate_all r [] = []
recalculate_all r (k ∷ ks) = let x = super_frame_recalculator r k in x.0 ∷ recalculate_all x.1 ks

-- The numbers as the packets carry them.
abbrev pub low_bits : List ℕ → List ℕ
low_bits [] = []
low_bits (k ∷ ks) = k % 65536 ∷ low_bits ks

-- Each number is less than 2 ^ 15 ahead of the one before it, or at most 2 ^ 15 behind it.
abbrev pub Near : ℕ → List ℕ → Type 0
Near n [] = n < 2 ^ 64
Near n (k ∷ ks) = (n < 2 ^ 64) × (k < n + 32768) × (n ≤ k + 32768) × Near k ks

Near-fits : (n : ℕ) (ks : List ℕ) → Near n ks → n < 2 ^ 64
Near-fits n [] h = h
Near-fits n (k ∷ ks) h = h.0

-- From the low 16 bits of the sender's numbers alone the receiver finds the numbers themselves,
-- through any number of wraps, as long as each is near the one before it.
pub recalculate_all-inverts :
    (r : ElasticFrameProtocolReceiver) (n : ℕ) (ks : List ℕ)
    → At r n
    → Near n ks
    → recalculate_all r (low_bits ks) ≡ ks
unfolding recalculate_all
recalculate_all-inverts r n [] h near = refl
recalculate_all-inverts r n (k ∷ ks) h near =
    let (fits, ahead, behind, rest) = near in
    let (value, at_k) = recalculator_exact r n k h ahead behind (Near-fits k ks rest) fits in
    rw value (
      ap (λ (l : List ℕ). k ∷ l)
        (recalculate_all-inverts (super_frame_recalculator r (k % 65536)).1 k ks at_k rest))
