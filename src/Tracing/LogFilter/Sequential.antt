-- ===== src/Tracing/LogFilter/Sequential.antt =====
-- `set_level_filter` of rust/tracing/src/logs/events.rs by one thread alone.
use micromegas.Prelude.{
  ℕ, ◌^◌, ◌<◌, ◌≤◌, ◌≡◌, refl, ap, true, false, Option, none, some, leb, ltb, ◌==◌, arith, ◌⊎◌,
  Bool-cases, inl, inr,
}
use micromegas.Levels.LevelFilter
use micromegas.Levels.LevelFilter.{LevelFilter}
use micromegas.Tracing.LogFilter.{
  generation_of, level_filter, pack, Pc, load, exchange, returned, access, recheck,
  set_level_filter, map_or_not_set, low_bits,
}
use micromegas.Tracing.LogFilter.Threads.{generation_of-pack, pack-low}

exchange-same :
    (g : ℕ) (f : Option LevelFilter) (word : ℕ)
    → access g f (exchange word) word ≡ (pack g f, returned)
unfolding access
exchange-same g f word = let same : (word == word) ≡ true = ground arith in rw same

recheck-returns :
    (g : ℕ) (f : Option LevelFilter) (word : ℕ) → (access g f (recheck g word) word).1 ≡ returned
unfolding access
recheck-returns g f word = elim (Bool-cases (leb g (generation_of word))) [
  | inl newer ↦ rw newer refl
  | inr older ↦ rw older (ap (λ (r : ℕ × Pc). r.1) (exchange-same g f word))
]

-- A thread that no other thread disturbs returns after two more accesses at most, wherever it is.
pub access-returns :
    (g : ℕ) (f : Option LevelFilter) (pc : Pc) (word : ℕ)
    → (access g f (access g f pc word).1 (access g f pc word).0).1 ≡ returned
unfolding access
access-returns g f load word = recheck-returns g f word
access-returns g f (exchange current) word = elim (Bool-cases (word == current)) [
  | inl same ↦ rw same refl
  | inr other ↦ rw other (recheck-returns g f word)
]
access-returns g f returned word = refl

from_u32-low_bits :
    (f : Option LevelFilter) → map_or_not_set (LevelFilter.from_u32 (low_bits f)) ≡ map_or_not_set f
from_u32-low_bits none = refl
from_u32-low_bits (some LevelFilter.off) = refl
from_u32-low_bits (some LevelFilter.fatal) = refl
from_u32-low_bits (some LevelFilter.error) = refl
from_u32-low_bits (some LevelFilter.warn) = refl
from_u32-low_bits (some LevelFilter.info) = refl
from_u32-low_bits (some LevelFilter.debug) = refl
from_u32-low_bits (some LevelFilter.trace) = refl

set_level_filter-older :
    (g : ℕ) (f : Option LevelFilter) (word : ℕ)
    → leb g (generation_of word) ≡ true
    → set_level_filter g f word ≡ word
unfolding set_level_filter access
set_level_filter-older g f word h = rw (set_level_filter, h) refl

set_level_filter-newer :
    (g : ℕ) (f : Option LevelFilter) (word : ℕ)
    → leb g (generation_of word) ≡ false
    → set_level_filter g f word ≡ pack g f
unfolding set_level_filter
set_level_filter-newer g f word h =
    rw (set_level_filter, h) (ap (λ (r : ℕ × Pc). r.0) (exchange-same g f word))

level_filter-pack :
    (g : ℕ) (f : Option LevelFilter) → g < 2 ^ 16 → level_filter g (pack g f) ≡ map_or_not_set f
unfolding level_filter
level_filter-pack g f small =
    let e = generation_of-pack g f small in
    let fresh : ltb (generation_of (pack g f)) g ≡ false = ground arith in
    rw (level_filter, fresh, pack-low g f) (from_u32-low_bits f)

-- Setting a filter with a 16-bit generation that is newer than the one stored makes it the filter
-- that is read at that generation, and none is read as not set; with the generation stored or an older
-- one it changes nothing.
pub level_filter-set_level_filter :
    (g : ℕ) (f : Option LevelFilter) (word : ℕ)
    → g < 2 ^ 16
    → ((generation_of word < g) × (level_filter g (set_level_filter g f word) ≡ map_or_not_set f))
      ⊎ ((g ≤ generation_of word) × (set_level_filter g f word ≡ word))
level_filter-set_level_filter g f word small = elim (Bool-cases (leb g (generation_of word))) [
  | inl older ↦ inr (ground arith, set_level_filter-older g f word older)
  | inr newer ↦
      inl (ground arith, rw (set_level_filter-newer g f word newer) (level_filter-pack g f small))
]
