-- ===== src/Transfer/Memory.antt =====
-- Writing a part of the content to its own place spoils no byte that was right before.
use efp.Prelude.{
  ℕ, ◌+◌, ◌-◌, ◌≤◌, ◌<◌, ◌≡◌, refl, ap, ◌∙◌, some, List, [], arith, length, take, drop, get_elem?,
  length-take, length-drop, get_elem?-take, get_elem?-drop, if◌then◌else◌, leb, ltb, ◌&&◌,
}
use efp.Frames.{Memory, write}

pub length-part :
    (content : List ℕ) (start size : ℕ)
    → start + size ≤ length content
    → length (take size (drop start content)) ≡ size
length-part content start size h =
    omega (arith, length-take size (drop start content), length-drop start content)

get-part :
    (content : List ℕ) (start size x : ℕ)
    → start ≤ x
    → x < start + size
    → get_elem? (take size (drop start content)) (x - start) ≡ get_elem? content x
get-part content start size x lo hi =
    get_elem?-take size (x - start) (drop start content) (omega arith)
    ∙ get_elem?-drop start (x - start) content
    ∙ ap (get_elem? content) (let e : start + (x - start) ≡ x = omega arith in e)

-- What a write of the content's own bytes leaves.
pub record Writes (m : Memory) (content : List ℕ) (start size : ℕ) : Type 0 where
  pub after : Memory
  pub result : write m start (take size (drop start content)) ≡ some after
  pub same_capacity : after.capacity ≡ m.capacity
  pub kept : (x : ℕ) → m.byte x ≡ get_elem? content x → after.byte x ≡ get_elem? content x
  pub written : (x : ℕ) → start ≤ x → x < start + size → after.byte x ≡ get_elem? content x

pub write-Writes :
    (m : Memory) (content : List ℕ) (start size : ℕ)
    → start + size ≤ length content
    → start + size ≤ m.capacity
    → Writes m content start size
unfolding write
write-Writes m content start size h room =
    let e : length (take size (drop start content)) ≡ size = length-part content start size h in
    record {
      after = record m {
        byte = λ x.
            if leb start x && ltb x (start + size)
            then get_elem? (take size (drop start content)) (x - start)
            else m.byte x;
      };
      result = rw e (ground arith);
      same_capacity = refl;
      kept = λ x k. ground (arith, get-part content start size x);
      written = λ x lo hi. ground (arith, get-part content start size x lo hi);
    }

-- A write of nothing needs no more than a place inside the memory.
pub write-Writes_empty :
    (m : Memory) (content : List ℕ) (start : ℕ) → start ≤ m.capacity → Writes m content start 0
unfolding write
write-Writes_empty m content start room = record {
  after = record m {
    byte = λ x. if leb start x && ltb x (start + 0) then get_elem? [] (x - start) else m.byte x;
  };
  result = ground arith;
  same_capacity = refl;
  kept = λ x k. ground arith;
  written = λ x lo hi. absurd (omega arith);
}
