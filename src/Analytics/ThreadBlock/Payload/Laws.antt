-- ===== src/Analytics/ThreadBlock/Payload/Laws.antt =====
-- The objects of a thread block reach the processor as events, rust/analytics/src/
-- thread_block_processor.rs.
use micromegas.Prelude.{
  ℕ, ℤ, pos, add_i64, String, ◌≡◌, refl, Bool, true, false, List, [], ◌∷◌, map, Result, ok, err,
  ◌>>=◌, if◌then◌else◌, All,
}
use micromegas.Transit.Value.{
  Value, object, string, i64, Object, object_of, Members, no_members, member, get, find_member,
  get_i64, get_object, get_string,
}
use micromegas.Transit.Parser.Objects.Encoded.{for_each}
use micromegas.Analytics.Scope.{ScopeDesc}
use micromegas.Analytics.ThreadBlock.{
  ThreadBlockProcessor, ThreadEvent, begin_scope, end_scope, on_event, process_events,
}
use micromegas.Analytics.ThreadBlock.Payload.{
  read_scope, read_named_scope, on_thread_event, on_thread_named_event, on_thread_object,
  on_thread_value,
}

-- The kinds of asynchronous spans, with their names.
pub data AsyncKind : Type 0 where
  begin_async end_async begin_async_named end_async_named : AsyncKind

abbrev pub async_name : AsyncKind → String
async_name begin_async = "BeginAsyncSpanEvent"
async_name end_async = "EndAsyncSpanEvent"
async_name begin_async_named = "BeginAsyncNamedSpanEvent"
async_name end_async_named = "EndAsyncNamedSpanEvent"

-- An object of a thread block, with the scope that it describes. The object of a named span refers
-- to a location, and has the name itself.
pub data SpanObject : Type 0 where
  begin_span : Object → ScopeDesc → ℤ → SpanObject
  end_span : Object → ScopeDesc → ℤ → SpanObject
  begin_named : Object → List ℕ → ScopeDesc → ℤ → SpanObject
  end_named : Object → List ℕ → ScopeDesc → ℤ → SpanObject
  async_span : AsyncKind → Members → SpanObject

abbrev span_members : Object → ℤ → Members
span_members scope ts = member "thread_span_desc" (object scope) (member "time" (i64 ts) no_members)

abbrev named_members : Object → List ℕ → ℤ → Members
named_members location name ts =
    member "thread_span_location" (object location)
      (member "name" (string name) (member "time" (i64 ts) no_members))

abbrev pub value_of_span : SpanObject → Value
value_of_span (begin_span o scope ts) =
    object (object_of "BeginThreadSpanEvent" (span_members o ts))
value_of_span (end_span o scope ts) = object (object_of "EndThreadSpanEvent" (span_members o ts))
value_of_span (begin_named o name scope ts) =
    object (object_of "BeginThreadNamedSpanEvent" (named_members o name ts))
value_of_span (end_named o name scope ts) =
    object (object_of "EndThreadNamedSpanEvent" (named_members o name ts))
value_of_span (async_span kind ms) = object (object_of (async_name kind) ms)

-- The events, numbered by the places of their objects; an asynchronous span counts, and is no event.
unfoldable pub numbered : ℤ → List SpanObject → List ThreadEvent
numbered id [] = []
numbered id (begin_span o scope ts ∷ rest) =
    begin_scope id scope ts ∷ numbered (add_i64 id (pos 1)) rest
numbered id (end_span o scope ts ∷ rest) =
    end_scope id scope ts ∷ numbered (add_i64 id (pos 1)) rest
numbered id (begin_named o name scope ts ∷ rest) =
    begin_scope id scope ts ∷ numbered (add_i64 id (pos 1)) rest
numbered id (end_named o name scope ts ∷ rest) =
    end_scope id scope ts ∷ numbered (add_i64 id (pos 1)) rest
numbered id (async_span kind ms ∷ rest) = numbered (add_i64 id (pos 1)) rest

module _ (xxh32 : List ℕ → ℕ → ℕ) where
  -- The object describes the scope.
  abbrev pub IsRead : SpanObject → Type 0
  IsRead (begin_span o scope ts) = read_scope xxh32 o ≡ ok scope
  IsRead (end_span o scope ts) = read_scope xxh32 o ≡ ok scope
  IsRead (begin_named o name scope ts) = read_named_scope xxh32 o name ≡ ok scope
  IsRead (end_named o name scope ts) = read_named_scope xxh32 o name ≡ ok scope
  IsRead (async_span kind ms) = Unit

  module _ {S : Type 0} (processor : ThreadBlockProcessor S) (block_id : String) where
    abbrev numbers_off : Result (Bool × (ℤ × S)) → Result (S × Bool)
    numbers_off r = r >>= λ (continue, (id, s)). ok (s, continue)

    -- What one call of the processor returned, with the number of the next object.
    abbrev numbering : ℤ → Result (S × Bool) → Result (Bool × (ℤ × S))
    numbering id called = called >>= λ (s, continue). ok (continue, (id, s))

    -- One object, and what comes behind it.
    turn :
        (called : Result (S × Bool)) (id : ℤ) (later : ℤ × S → Result (Bool × (ℤ × S)))
        (events : S → Result (S × Bool))
        → ((s : S) → numbers_off (later (id, s)) ≡ events s)
        → numbers_off (numbering id called >>= λ p. if p.0 then later p.1 else ok (false, p.1))
          ≡ (called >>= λ p. if p.1 then events p.0 else ok (p.0, false))
    turn (err failure) id later events h = refl
    turn (ok (s, true)) id later events h = h s
    turn (ok (s, false)) id later events h = refl

    abbrev on_value : Value → ℤ × S → Result (Bool × (ℤ × S))
    on_value = on_thread_value xxh32 processor block_id

    -- The call that the object of a span makes.
    on_thread_value-begin_span :
        (o : Object) (scope : ScopeDesc) (ts id : ℤ) (s : S)
        → read_scope xxh32 o ≡ ok scope
        → on_value (value_of_span (begin_span o scope ts)) (id, s)
          ≡ numbering (add_i64 id (pos 1)) (on_event processor block_id (begin_scope id scope ts) s)
    unfolding on_thread_value on_thread_object on_thread_event get find_member get_i64 get_object
        get_string on_event
    on_thread_value-begin_span o scope ts id s h = rw h refl

    on_thread_value-end_span :
        (o : Object) (scope : ScopeDesc) (ts id : ℤ) (s : S)
        → read_scope xxh32 o ≡ ok scope
        → on_value (value_of_span (end_span o scope ts)) (id, s)
          ≡ numbering (add_i64 id (pos 1)) (on_event processor block_id (end_scope id scope ts) s)
    unfolding on_thread_value on_thread_object on_thread_event get find_member get_i64 get_object
        get_string on_event
    on_thread_value-end_span o scope ts id s h = rw h refl

    on_thread_value-begin_named :
        (o : Object) (name : List ℕ) (scope : ScopeDesc) (ts id : ℤ) (s : S)
        → read_named_scope xxh32 o name ≡ ok scope
        → on_value (value_of_span (begin_named o name scope ts)) (id, s)
          ≡ numbering (add_i64 id (pos 1)) (on_event processor block_id (begin_scope id scope ts) s)
    unfolding on_thread_value on_thread_object on_thread_named_event get find_member get_i64
        get_object get_string on_event
    on_thread_value-begin_named o name scope ts id s h = rw h refl

    on_thread_value-end_named :
        (o : Object) (name : List ℕ) (scope : ScopeDesc) (ts id : ℤ) (s : S)
        → read_named_scope xxh32 o name ≡ ok scope
        → on_value (value_of_span (end_named o name scope ts)) (id, s)
          ≡ numbering (add_i64 id (pos 1)) (on_event processor block_id (end_scope id scope ts) s)
    unfolding on_thread_value on_thread_object on_thread_named_event get find_member get_i64
        get_object get_string on_event
    on_thread_value-end_named o name scope ts id s h = rw h refl

    on_thread_value-async_span :
        (kind : AsyncKind) (ms : Members) (id : ℤ) (s : S)
        → on_value (value_of_span (async_span kind ms)) (id, s)
          ≡ numbering (add_i64 id (pos 1)) (ok (s, true))
    unfolding on_thread_value on_thread_object
    on_thread_value-async_span begin_async ms id s = refl
    on_thread_value-async_span _ ms id s = refl

    -- Over the objects of a thread block, each with a readable scope, the processor is called with the
    -- events that they describe, numbered by their places from the object offset of the block on, until
    -- it answers `false` or fails. An asynchronous span, of any of the four kinds,
    -- takes a number and is no call.
    pub for_each-process_events :
        (spans : List SpanObject) (object_offset : ℤ) (s : S)
        → All IsRead spans
        → (for_each
              (on_thread_value xxh32 processor block_id)
              (map value_of_span spans)
              (object_offset, s)
            >>= λ (continue, (id, s')). ok (s', continue))
          ≡ process_events processor block_id (numbered object_offset spans) s
    unfolding for_each process_events numbered
    for_each-process_events [] id s h = refl
    for_each-process_events (begin_span o scope ts ∷ rest) id s (read_, h) =
        rw (on_thread_value-begin_span o scope ts id s read_) (
          turn (on_event processor block_id (begin_scope id scope ts) s) _ _ _
            λ s'. for_each-process_events rest (add_i64 id (pos 1)) s' h)
    for_each-process_events (end_span o scope ts ∷ rest) id s (read_, h) =
        rw (on_thread_value-end_span o scope ts id s read_) (
          turn (on_event processor block_id (end_scope id scope ts) s) _ _ _
            λ s'. for_each-process_events rest (add_i64 id (pos 1)) s' h)
    for_each-process_events (begin_named o name scope ts ∷ rest) id s (read_, h) =
        rw (on_thread_value-begin_named o name scope ts id s read_) (
          turn (on_event processor block_id (begin_scope id scope ts) s) _ _ _
            λ s'. for_each-process_events rest (add_i64 id (pos 1)) s' h)
    for_each-process_events (end_named o name scope ts ∷ rest) id s (read_, h) =
        rw (on_thread_value-end_named o name scope ts id s read_) (
          turn (on_event processor block_id (end_scope id scope ts) s) _ _ _
            λ s'. for_each-process_events rest (add_i64 id (pos 1)) s' h)
    for_each-process_events (async_span kind ms ∷ rest) id s (read_, h) =
        rw (on_thread_value-async_span kind ms id s)
          (for_each-process_events rest (add_i64 id (pos 1)) s h)
