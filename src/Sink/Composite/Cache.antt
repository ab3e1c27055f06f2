-- ===== src/Sink/Composite/Cache.antt =====
-- The filter that a metadata caches for rust/telemetry-sink/src/composite_event_sink.rs.
use micromegas.Prelude.{
  ℕ, zero, suc, ◌≡◌, refl, ◌⊎◌, inl, inr, true, List, [], ◌∷◌, Option, none, some, All, ltb, arith,
}
use micromegas.Levels.LevelFilter.{LevelFilter}
use micromegas.Tracing.LogFilter.{
  outdated, level_filter, set_level_filter, generation_of, map_or_not_set,
}
use micromegas.Tracing.LogFilter.Sequential.{level_filter-set_level_filter}
use micromegas.Sink.Composite.{CompositeSink, Metadata, find_max_match, by_state, target_max_level}

-- The atomic is as it was declared, or holds the filter of the target.
abbrev IsCached : Option LevelFilter → ℕ → Type 0
IsCached found word = (generation_of word ≡ 0) ⊎ (level_filter 1 word ≡ map_or_not_set found)

by_state-cached :
    (found : Option LevelFilter) (word : ℕ)
    → by_state (map_or_not_set found) found word ≡ (found, word)
unfolding by_state
by_state-cached none word = refl
by_state-cached (some l) word = refl

level_filter-fresh : (word : ℕ) → generation_of word ≡ 0 → level_filter 1 word ≡ outdated
unfolding level_filter
level_filter-fresh word fresh =
    let old : ltb (generation_of word) 1 ≡ true = ground arith in rw (level_filter, old) refl

set-fresh :
    (found : Option LevelFilter) (word : ℕ)
    → generation_of word ≡ 0
    → level_filter 1 (set_level_filter 1 found word) ≡ map_or_not_set found
set-fresh found word fresh = elim (level_filter-set_level_filter 1 found word (omega arith)) [
  | inl (newer, e) ↦ e
  | inr (older, e) ↦ absurd (omega (arith, fresh, older))
]

pub by_state-IsCached :
    (found : Option LevelFilter) (word : ℕ)
    → IsCached found word
    → ((by_state (level_filter 1 word) found word).0 ≡ found)
      × IsCached found (by_state (level_filter 1 word) found word).1
unfolding by_state
by_state-IsCached found word (inl fresh) =
    rw (level_filter-fresh word fresh) (refl, inr (set-fresh found word fresh))
by_state-IsCached found word (inr cached) =
    rw (cached, by_state-cached found word) (refl, inr cached)

-- The answers to `n` calls of `target_max_level` on one metadata.
unfoldable pub ask : ℕ → CompositeSink → Metadata → ℕ → List (Option LevelFilter)
ask zero s metadata word = []
ask (suc n) s metadata word =
    let (answer, word') = target_max_level s metadata word in answer ∷ ask n s metadata word'

ask-IsCached :
    (n : ℕ) (s : CompositeSink) (metadata : Metadata) (word : ℕ)
    → IsCached (find_max_match metadata.target s.target_level_filters) word
    → All
        (λ answer. answer ≡ find_max_match metadata.target s.target_level_filters)
        (ask n s metadata word)
unfolding ask target_max_level
ask-IsCached zero s metadata word h = tt
ask-IsCached (suc n) s metadata word h =
    let (answer, h') =
      by_state-IsCached (find_max_match metadata.target s.target_level_filters) word h in
    (answer, ask-IsCached n s metadata _ h')

-- Every call of `target_max_level` on a metadata whose atomic still has the generation 0 answers what
-- the search through the targets answers, the calls that read the cached filter included.
pub ask-find_max_match :
    (n : ℕ) (s : CompositeSink) (metadata : Metadata) (word : ℕ)
    → generation_of word ≡ 0
    → All
        (λ answer. answer ≡ find_max_match metadata.target s.target_level_filters)
        (ask n s metadata word)
ask-find_max_match n s metadata word fresh = ask-IsCached n s metadata word (inl fresh)
