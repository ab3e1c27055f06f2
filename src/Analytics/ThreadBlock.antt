-- ===== src/Analytics/ThreadBlock.antt =====
-- The trait `ThreadBlockProcessor` of rust/analytics/src/thread_block_processor.rs, and the loop
-- that hands it the events of a block until it answers `false`.
pub mod Payload
use micromegas.Prelude.{
  ℤ, String, Bool, true, false, List, [], ◌∷◌, Result, ok, err, ◌>>=◌, if◌then◌else◌,
}
use micromegas.Analytics.Scope.{ScopeDesc}

-- Both methods take the block's id, the event's id, its scope and its time in ticks.
pub record ThreadBlockProcessor (S : Type 0) : Type 0 where
  pub on_begin_thread_scope : String → ℤ → ScopeDesc → ℤ → S → Result (S × Bool)
  pub on_end_thread_scope : String → ℤ → ScopeDesc → ℤ → S → Result (S × Bool)

-- A scope event of a block, as the parser decodes it.
pub data ThreadEvent : Type 0 where
  begin_scope : ℤ → ScopeDesc → ℤ → ThreadEvent
  end_scope : ℤ → ScopeDesc → ℤ → ThreadEvent

module _ {S : Type 0} (p : ThreadBlockProcessor S) (block_id : String) where
  unfoldable pub on_event : ThreadEvent → S → Result (S × Bool)
  on_event (begin_scope id scope ts) s = p.on_begin_thread_scope block_id id scope ts s
  on_event (end_scope id scope ts) s = p.on_end_thread_scope block_id id scope ts s

  unfoldable pub process_events : List ThreadEvent → S → Result (S × Bool)
  unfolding on_event
  process_events [] s = ok (s, true)
  process_events (e ∷ es) s = do
    (s', continue) ← on_event e s
    let rest = process_events es s'
    if continue then rest else ok (s', false)

module _ {S : Type 0} (P : S → Type 0) where
  -- What holds of the state that a handler returns.
  abbrev pub Post : Result (S × Bool) → Type 0
  Post (ok (s, continue)) = P s
  Post (err e) = Unit

  Post-bind :
      (r : Result (S × Bool)) (k : S × Bool → Result (S × Bool))
      → Post r
      → ((s : S) (continue : Bool) → P s → Post (k (s, continue)))
      → Post (r >>= k)
  Post-bind (ok (s, continue)) k h rest = rest s continue h
  Post-bind (err e) k h rest = tt

  Post-if :
      (continue : Bool) (s : S) (r : Result (S × Bool))
      → P s
      → Post r
      → Post (if continue then r else ok (s, false))
  Post-if true s r h k = k
  Post-if false s r h k = h

  -- What every handler keeps, the loop over a block keeps.
  pub process_events_inv :
      (p : ThreadBlockProcessor S) (block_id : String)
      → ((e : ThreadEvent) (s : S) → P s → Post (on_event p block_id e s))
      → (es : List ThreadEvent) (s : S) → P s
      → Post (process_events p block_id es s)
  unfolding process_events
  process_events_inv p block_id keep [] s h = h
  process_events_inv p block_id keep (e ∷ es) s h =
      Post-bind (on_event p block_id e s) _ (keep e s h) λ s' continue h'.
        Post-if continue s' (process_events p block_id es s') h'
          (process_events_inv p block_id keep es s' h')
