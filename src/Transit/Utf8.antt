-- ===== src/Transit/Utf8.antt =====
-- The standard library's UTF-8 decoding, which the readers of strings call: `String::from_utf8`
-- checks the bytes, `String::from_utf8_lossy` replaces each maximal invalid part by U+FFFD.
-- A Rust `String` is the list of its bytes.
use micromegas.Prelude.{
  ℕ, ◌-◌, ◌≡◌, refl, ap, ◌∙◌, Bool, true, false, ◌&&◌, List, [], ◌∷◌, ◌++◌, Option, none, some, ltb,
  leb, ◌==◌, if◌then◌else◌, append_assoc, arith, Option-cases, inl, inr, Bool-cases,
}

-- How many continuation bytes are still to come, and the range of the next one.
pub record Expect : Type 0 where
  pub need : ℕ
  pub lo : ℕ
  pub hi : ℕ

abbrev expect : ℕ → ℕ → ℕ → Expect
expect need lo hi = record { need = need; lo = lo; hi = hi }

abbrev pub start : Expect
start = expect 0 0 0

-- The first byte of a character.
lead : ℕ → Option Expect
lead b =
    if ltb b 0x80
    then some start
    else if ltb b 0xc2
    then none
    else if ltb b 0xe0
    then some (expect 1 0x80 0xbf)
    else if b == 0xe0
    then some (expect 2 0xa0 0xbf)
    else if b == 0xed
    then some (expect 2 0x80 0x9f)
    else if ltb b 0xf0
    then some (expect 2 0x80 0xbf)
    else if b == 0xf0
    then some (expect 3 0x90 0xbf)
    else if ltb b 0xf4
    then some (expect 3 0x80 0xbf)
    else if b == 0xf4
    then some (expect 3 0x80 0x8f)
    else none

step : Expect → ℕ → Option Expect
unfolding lead
step e b =
    if e.need == 0
    then lead b
    else if leb e.lo b && leb b e.hi
    then some (expect (e.need - 1) 0x80 0xbf)
    else none

accepts : Expect → List ℕ → Bool
accepts e [] = e.need == 0
accepts e (b ∷ bs) = elim (step e b) [ none ↦ false | some e' ↦ accepts e' bs ]

unfoldable pub is_utf8 : List ℕ → Bool
unfolding accepts step
is_utf8 = accepts start

unfoldable pub from_utf8 : List ℕ → Option (List ℕ)
unfolding is_utf8
from_utf8 bytes = if is_utf8 bytes then some bytes else none

abbrev replacement : List ℕ
replacement = 0xef ∷ 0xbf ∷ 0xbd ∷ []

-- What one byte emits, the state behind it, and the bytes of the character that is not complete.
record Chunk : Type 0 where
  emit : List ℕ
  expect : Expect
  pending : List ℕ

-- A byte that continues or begins a character.
accept_byte : Expect → List ℕ → ℕ → Chunk
accept_byte e pending b =
    if e.need == 0
    then record { emit = pending ++ b ∷ []; expect = e; pending = [] }
    else record { emit = []; expect = e; pending = pending ++ b ∷ [] }

-- A byte that begins a character after an invalid part.
restart : Option Expect → ℕ → Chunk
restart none b = record { emit = replacement ++ replacement; expect = start; pending = [] }
restart (some e) b = let c = accept_byte e [] b in record c { emit = replacement ++ c.emit }

-- A byte that is refused: alone, or behind the beginning of a character.
refuse_byte : Expect → ℕ → Chunk
unfolding restart accept_byte
refuse_byte e b =
    if e.need == 0
    then record { emit = replacement; expect = start; pending = [] }
    else restart (lead b) b

lossy_step : Expect → List ℕ → ℕ → Chunk
unfolding accept_byte refuse_byte
lossy_step e pending b = elim (step e b) [
  | none ↦ refuse_byte e b
  | some e' ↦ accept_byte e' pending b
]

lossy : Expect → List ℕ → List ℕ → List ℕ
lossy e pending [] = if e.need == 0 then [] else replacement
lossy e pending (b ∷ bs) = let c = lossy_step e pending b in c.emit ++ lossy c.expect c.pending bs

unfoldable pub from_utf8_lossy : List ℕ → List ℕ
unfolding lossy lossy_step step
from_utf8_lossy = lossy start []

lossy_step_next :
    (e e' : Expect) (pending : List ℕ) (b : ℕ)
    → step e b ≡ some e'
    → lossy_step e pending b ≡ accept_byte e' pending b
unfolding lossy_step
lossy_step_next e e' pending b next = rw (next, lossy_step)

lossy-accept_byte :
    (b : ℕ) (bs : List ℕ) (e e' : Expect) (pending : List ℕ)
    → step e b ≡ some e'
    → ((p : List ℕ) → (e'.need ≡ 0 → p ≡ []) → lossy e' p bs ≡ p ++ bs)
    → lossy e pending (b ∷ bs) ≡ pending ++ b ∷ bs
unfolding lossy accept_byte
lossy-accept_byte b bs e e' pending next rest = elim (Bool-cases (e'.need == 0)) [
  | inl done ↦
      rw (lossy_step_next e e' pending b next, done)
        (ap (λ t. (pending ++ b ∷ []) ++ t) (rest [] (λ _. refl))
          ∙ append_assoc pending (b ∷ []) bs)
  | inr more ↦
      rw (lossy_step_next e e' pending b next, more)
        (rest (pending ++ b ∷ []) (λ z. absurd (ground arith)) ∙ append_assoc pending (b ∷ []) bs)
]

lossy-accepts :
    (bs : List ℕ) (e : Expect) (pending : List ℕ)
    → accepts e bs ≡ true
    → (e.need ≡ 0 → pending ≡ [])
    → lossy e pending bs ≡ pending ++ bs
unfolding lossy accepts
lossy-accepts [] e pending a h = elim (Bool-cases (e.need == 0)) [
  | inl done ↦ rw (done, h (ground arith))
  | inr more ↦ cc
]
lossy-accepts (b ∷ bs) e pending a h = elim (Option-cases (step e b)) [
  | inl refused ↦ cc
  | inr (e', next) ↦
      lossy-accept_byte b bs e e' pending next (λ p. lossy-accepts bs e' p (ground arith))
]

-- The lossy decoder keeps valid UTF-8 as it is.
pub from_utf8_lossy-is_utf8 :
    (bytes : List ℕ) → is_utf8 bytes ≡ true → from_utf8_lossy bytes ≡ bytes
unfolding from_utf8_lossy is_utf8
from_utf8_lossy-is_utf8 bytes h = lossy-accepts bytes start [] h (λ _. refl)
