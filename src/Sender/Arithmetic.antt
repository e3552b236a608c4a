-- ===== src/Sender/Arithmetic.antt =====
-- How a frame is cut: the fragments fill the frame exactly, and their numbers fit 16 bits.
use efp.Prelude.{ℕ, ◌+◌, ◌-◌, ◌*◌, ◌/◌, ◌%◌, ◌≤◌, ◌<◌, ◌≡◌, refl, ap, arith, ltb, if◌then◌else◌}
use native.Mathlib.Nat.{div-add-mod', mod-lt, mul-le-mul_right}
use native.Mathlib.Decide.{dec_lt}
use mathlib.Core.Logic.{◌≢◌}
use efp.Sender.{Cut, cut, size_limit}

pub record IsCut (mtu size : ℕ) (c : Cut) : Type 0 where
  pub payload1_is : c.payload1 ≡ mtu - 8
  pub payload2_is : c.payload2 ≡ mtu - 32
  pub total : c.of_fragment_no_type1 * c.payload1 + c.reminder_data ≡ size
  pub reminder_small : c.reminder_data < c.payload1
  pub needed_iff : c.type3_needed ≡ ltb c.payload2 c.reminder_data
  pub count_fits : c.of_fragment_no < 65535
  pub count_is : c.of_fragment_no ≡ c.of_fragment_no_type1 + (if c.type3_needed then 1 else 0)

-- A quotient above 65534 would put the size above the limit; so would a full last packet there.
whole_small :
    (p w r size : ℕ) → 247 ≤ p → w * p + r ≡ size → size ≤ p * 65534 + (p - 24) → w ≤ 65534
whole_small p w r size hp e hs = elim (dec_lt 65534 w) [
  | yes big ↦ absurd (grind (arith, mul-le-mul_right p big))
  | no small ↦ omega arith
]

last_small :
    (p w r size : ℕ) → w * p + r ≡ size → size ≤ p * 65534 + (p - 24) → p - 24 < r → w ≢ 65534
last_small p w r size e hs hr eq = absurd (omega (arith, ap (λ (t : ℕ). t * p) eq))

counts :
    (p w r : ℕ)
    → w ≤ 65534
    → (p - 24 < r → w ≢ 65534)
    → ((if ltb (p - 24) r then (w + 1) % 65536 else w) < 65535)
      × ((if ltb (p - 24) r then (w + 1) % 65536 else w) ≡ w + (if ltb (p - 24) r then 1 else 0))
counts p w r small last = ground arith

-- For an MTU from 255 to 65535 and a frame within the limit of the guard: the full fragments and the
-- remainder add up to the frame, the remainder is smaller than a fragment, a packet of type 3 is
-- needed exactly when it does not fit a packet of type 2, and the last fragment's number counts the
-- packets in front of it and stays below 65535.
pub cut-IsCut :
    (mtu size : ℕ) → 255 ≤ mtu → mtu < 65536 → size ≤ size_limit mtu → IsCut mtu size (cut mtu size)
unfolding cut
cut-IsCut mtu size lo hi h =
    let p : ℕ = mtu - 8 in
    let w : ℕ = size / p in
    let e : w * p + size % p ≡ size = div-add-mod' size p in
    let r : size % p < p = mod-lt size (omega arith) in
    let small : w ≤ 65534 = whole_small p w (size % p) size (omega arith) e (omega arith) in
    let w' : w % 65536 ≡ w = omega arith in
    let p' : p % 65536 ≡ p = omega arith in
    let p2 : (mtu - 32) % 65536 ≡ p - 24 = omega arith in
    let rest : size - w * p ≡ size % p = omega arith in
    let n = counts p w (size % p) small (last_small p w (size % p) size e (omega arith)) in
    rw (w', p', p2, rest)
      (record {
        payload1_is = refl;
        payload2_is = omega arith;
        total = e;
        reminder_small = r;
        needed_iff = refl;
        count_fits = n.0;
        count_is = n.1;
      })
