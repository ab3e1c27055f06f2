-- ===== src/Tracing/LogFilter.antt =====
-- The level filter that `LogMetadata` of rust/tracing/src/logs/events.rs keeps in an atomic: a level
-- filter in the low four bits and a generation in the high sixteen. Where two operands of `|` share no
-- bit, the model adds them.
pub mod Sequential
pub mod Threads
use micromegas.Prelude.{
  ℕ, zero, suc, ◌+◌, ◌*◌, ◌/◌, ◌%◌, ◌^◌, ◌<◌, ◌≡◌, refl, Bool, true, false, Option, none, some, leb,
  ltb, ◌==◌, if◌then◌else◌, arith, List, [], ◌∷◌,
}
use micromegas.Levels.LevelFilter
use micromegas.Levels.LevelFilter.{LevelFilter}

abbrev pub filter_level_unset_value : ℕ
filter_level_unset_value = 0xf

pub data FilterState : Type 0 where
  outdated : FilterState
  not_set : FilterState
  set : LevelFilter → FilterState

-- `(level_filter >> 16) as u16`
abbrev pub generation_of : ℕ → ℕ
generation_of word = (word / 2 ^ 16) % 2 ^ 16

abbrev pub map_or_not_set : Option LevelFilter → FilterState
map_or_not_set none = not_set
map_or_not_set (some f) = set f

-- `LogMetadata::level_filter`, where the atomic holds `word`
unfoldable pub level_filter : ℕ → ℕ → FilterState
level_filter generation word =
    if ltb (generation_of word) generation
    then outdated
    else map_or_not_set (LevelFilter.from_u32 (word % 2 ^ 4))

abbrev low_bits : Option LevelFilter → ℕ
low_bits none = filter_level_unset_value
low_bits (some f) = LevelFilter.as_u32 f

-- `new` of `set_level_filter`
unfoldable pub pack : ℕ → Option LevelFilter → ℕ
pack generation f = low_bits f + (generation % 2 ^ 16) * 2 ^ 16

-- A thread inside `set_level_filter`: before the load, in front of the compare-exchange with the value
-- of `current`, or behind the return.
pub data Pc : Type 0 where
  load : Pc
  exchange : ℕ → Pc
  returned : Pc

pub record Thread : Type 0 where
  pub generation : ℕ
  pub filter : Option LevelFilter
  pub pc : Pc

-- `if generation <= (x >> 16) as u16 { return; }`, and otherwise on with `current = x`.
abbrev recheck : ℕ → ℕ → Pc
recheck generation x = if leb generation (generation_of x) then returned else exchange x

-- One atomic access of a thread: the word behind it, and where the thread goes on.
unfoldable pub access : ℕ → Option LevelFilter → Pc → ℕ → ℕ × Pc
access generation f load word = (word, recheck generation word)
access generation f (exchange current) word =
    if word == current then (pack generation f, returned) else (word, recheck generation word)
access generation f returned word = (word, returned)

-- `set_level_filter` with no other thread in between
unfoldable pub set_level_filter : ℕ → Option LevelFilter → ℕ → ℕ
unfolding access
set_level_filter generation f word =
    let (word1, pc1) = access generation f load word in
    let (word2, pc2) = access generation f pc1 word1 in word2

-- Threads that set the filter of one metadata, each step by the thread that the schedule names; a
-- name that no thread has does nothing.
unfoldable pub step_thread : ℕ → List Thread → ℕ → ℕ × List Thread
unfolding access
step_thread i [] word = (word, [])
step_thread zero (t ∷ ts) word =
    let (word', pc) = access t.generation t.filter t.pc word in (word', record t { pc = pc } ∷ ts)
step_thread (suc i) (t ∷ ts) word = let (word', ts') = step_thread i ts word in (word', t ∷ ts')

unfoldable pub run_threads : List ℕ → List Thread → ℕ → ℕ × List Thread
run_threads [] ts word = (word, ts)
run_threads (i ∷ schedule) ts word =
    let (word', ts') = step_thread i ts word in run_threads schedule ts' word'
