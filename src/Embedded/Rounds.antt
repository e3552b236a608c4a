-- ===== src/Embedded/Rounds.antt =====
-- The rounds that the extraction of embedded data needs.
use efp.Prelude.{
  ℕ, zero, suc, ◌+◌, ◌≤◌, ◌<◌, ◌≡◌, refl, ap, ◌∙◌, arith, bit_and, Bool, true, false, Option, none,
  some, not, List, [], ◌∷◌, ◌++◌, drop, leb, ◌==◌, Bool-cases, Option-cases, inl, inr,
}
use efp.Prelude.Bytes.{le_value}
use efp.Frames.{Memory}
use efp.Embedded.{Extraction, read, extract_loop}

-- One round does not look at the rounds left but to hand them on, to a position inside the frame.
round_same :
    (rounds frame_size : ℕ) (m : Memory) (contents : List ℕ) (sections : List (List ℕ)) (p : ℕ)
    → ((c : List ℕ) (s : List (List ℕ)) (p' : ℕ)
        → p + 4 ≤ p'
        → leb frame_size p' ≡ false
        → extract_loop (suc rounds) frame_size m c s p' ≡ extract_loop rounds frame_size m c s p')
    → extract_loop (suc (suc rounds)) frame_size m contents sections p
      ≡ extract_loop (suc rounds) frame_size m contents sections p
unfolding extract_loop
round_same rounds frame_size m contents sections p same = elim (Option-cases (read m p 4)) [
  | inl out ↦ rw out
  | inr (header, e) ↦
      let t = le_value 1 header in
      let n = le_value 2 (drop 2 header) in
      elim (Bool-cases (t == 0)) [
        | inl stop ↦ rw (e, stop)
        | inr legal ↦ elim (Option-cases (read m (p + 4) n)) [
          | inl out ↦ rw (e, legal, out)
          | inr (section, e2) ↦ elim (Bool-cases (leb frame_size (p + (n + 4)))) [
            | inl over ↦ rw (e, legal, e2, over)
            | inr inside ↦ elim (Bool-cases (not (bit_and t 0x80 == 0))) [
              | inl end ↦ rw (e, legal, e2, inside, end)
              | inr more ↦
                  rw (e, legal, e2, inside, more)
                    (same (contents ++ (bit_and t 0x7f ∷ [])) (sections ++ (section ∷ []))
                      (p + (n + 4)) (omega arith) inside)
            ]
          ]
        ]
      ]
]

one_more_round :
    (rounds frame_size : ℕ) (m : Memory) (contents : List ℕ) (sections : List (List ℕ)) (p : ℕ)
    → frame_size ≤ rounds + p
    → extract_loop (suc (suc rounds)) frame_size m contents sections p
      ≡ extract_loop (suc rounds) frame_size m contents sections p
one_more_round zero frame_size m contents sections p enough =
    round_same zero frame_size m contents sections p
      (λ c s p' later inside. absurd (ground (arith, enough, later, inside)))
one_more_round (suc rounds) frame_size m contents sections p enough =
    round_same (suc rounds) frame_size m contents sections p (λ c s p' later inside.
      one_more_round rounds frame_size m c s p' (omega (arith, enough, later)))

more_rounds :
    (extra frame_size : ℕ) (m : Memory) (contents : List ℕ) (sections : List (List ℕ)) (p : ℕ)
    → extract_loop (extra + (frame_size + 1)) frame_size m contents sections p
      ≡ extract_loop (frame_size + 1) frame_size m contents sections p
more_rounds zero frame_size m contents sections p =
    ap (λ (k : ℕ). extract_loop k frame_size m contents sections p)
      (let e : 0 + (frame_size + 1) ≡ frame_size + 1 = omega arith in e)
more_rounds (suc extra) frame_size m contents sections p =
    ap (λ (k : ℕ). extract_loop k frame_size m contents sections p)
      (let e : suc extra + (frame_size + 1) ≡ suc (suc (extra + frame_size)) = omega arith in e)
    ∙ one_more_round (extra + frame_size) frame_size m contents sections p (omega arith)
    ∙ ap (λ (k : ℕ). extract_loop k frame_size m contents sections p)
        (let e : suc (extra + frame_size) ≡ extra + (frame_size + 1) = omega arith in e)
    ∙ more_rounds extra frame_size m contents sections p

-- Did the rounds run out?
abbrev pub out_of_rounds : Option (Option Extraction) → Bool
out_of_rounds none = false
out_of_rounds (some none) = true
out_of_rounds (some (some x)) = false

-- They do not when the rounds left reach from the position to the end of the frame.
rounds_suffice :
    (rounds frame_size : ℕ) (m : Memory) (contents : List ℕ) (sections : List (List ℕ)) (p : ℕ)
    → frame_size < rounds + p
    → 0 < rounds
    → out_of_rounds (extract_loop rounds frame_size m contents sections p) ≡ false
unfolding extract_loop
rounds_suffice zero frame_size m contents sections p enough some_round =
    absurd (omega (arith, some_round))
rounds_suffice (suc rounds) frame_size m contents sections p enough some_round =
    elim (Option-cases (read m p 4)) [
      | inl out ↦ rw out refl
      | inr (header, e) ↦
          let t = le_value 1 header in
          let n = le_value 2 (drop 2 header) in
          elim (Bool-cases (t == 0)) [
            | inl stop ↦ rw (e, stop) refl
            | inr legal ↦ elim (Option-cases (read m (p + 4) n)) [
              | inl out ↦ rw (e, legal, out) refl
              | inr (section, e2) ↦ elim (Bool-cases (leb frame_size (p + (n + 4)))) [
                | inl over ↦ rw (e, legal, e2, over) refl
                | inr inside ↦ elim (Bool-cases (not (bit_and t 0x80 == 0))) [
                  | inl end ↦ rw (e, legal, e2, inside, end) refl
                  | inr more ↦
                      let left : 0 < rounds = ground (arith, enough, inside) in
                      rw (e, legal, e2, inside, more)
                        (rounds_suffice rounds frame_size m (contents ++ (bit_and t 0x7f ∷ []))
                          (sections ++ (section ∷ [])) (p + (n + 4)) (omega (arith, enough)) left)
                ]
              ]
            ]
          ]
    ]

-- The loop of extractEmbeddedData, which goes on without a bound of its own, ends: the rounds that it
-- is given here, one more than the frame has bytes, never run out, and any number of further rounds
-- gives the same result, whatever the frame's memory holds and wherever the loop starts.
pub extract_rounds_enough :
    (extra frame_size : ℕ) (m : Memory) (contents : List ℕ) (sections : List (List ℕ)) (p : ℕ)
    → (out_of_rounds (extract_loop (frame_size + 1) frame_size m contents sections p) ≡ false)
      × (extract_loop (extra + (frame_size + 1)) frame_size m contents sections p
          ≡ extract_loop (frame_size + 1) frame_size m contents sections p)
extract_rounds_enough extra frame_size m contents sections p =
    let one : frame_size + 1 ≡ suc frame_size = omega arith in
    (
      ap (λ (k : ℕ). out_of_rounds (extract_loop k frame_size m contents sections p)) one
          ∙ rounds_suffice (suc frame_size) frame_size m contents sections p (omega arith)
              (omega arith),
      more_rounds extra frame_size m contents sections p,
    )
