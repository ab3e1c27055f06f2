-- ===== src/Analytics/ThreadBlock/Payload.antt =====
-- `parse_thread_block_payload` of rust/analytics/src/thread_block_processor.rs: the objects of a block
-- become calls of the processor. The hash function of scopes is an argument.
pub mod Laws
mod Tests
use micromegas.Prelude.{
  ℕ, ℤ, pos, add_i64, String, Bool, true, List, Result, ok, ◌>>=◌, if◌then◌else◌,
}
use text.Mathlib.Text.{◌==◌ as ◌==ₛ◌}
use micromegas.Transit.Value.{
  Value, object, Object, type_name, get, get_i64, get_u32, get_string, get_object,
}
use micromegas.Analytics.Scope.{ScopeDesc, new_scope}
use micromegas.Analytics.Block.{Codec, StreamInfo, BlockPayload, parse_block}
use micromegas.Analytics.ThreadBlock.{ThreadBlockProcessor}

unfoldable pub on_thread_event : {B : Type 0} → (Object → ℤ → Result B) → Object → Result B
on_thread_event fun obj = do
  tick ← get get_i64 "time" obj
  scope ← get get_object "thread_span_desc" obj
  fun scope tick

unfoldable pub on_thread_named_event :
    {B : Type 0} → (Object → List ℕ → ℤ → Result B) → Object → Result B
on_thread_named_event fun obj = do
  tick ← get get_i64 "time" obj
  scope ← get get_object "thread_span_location" obj
  name ← get get_string "name" obj
  fun scope name tick

module _ (xxh32 : List ℕ → ℕ → ℕ) where
  -- The description that the closures of the four kinds of events build from the object of a span.
  unfoldable pub read_scope : Object → Result ScopeDesc
  read_scope scope = do
    name ← get get_string "name" scope
    filename ← get get_string "file" scope
    target ← get get_string "target" scope
    line ← get get_u32 "line" scope
    ok (new_scope xxh32 name filename target line)

  unfoldable pub read_named_scope : Object → List ℕ → Result ScopeDesc
  read_named_scope scope name = do
    filename ← get get_string "file" scope
    target ← get get_string "target" scope
    line ← get get_u32 "line" scope
    ok (new_scope xxh32 name filename target line)

  module _ {S : Type 0} (processor : ThreadBlockProcessor S) (block_id : String) where
    -- The `match` on the type of an object.
    unfoldable pub on_thread_object : Object → ℤ → S → Result (S × Bool)
    on_thread_object obj event_id s =
        if type_name obj ==ₛ "BeginThreadSpanEvent"
        then on_thread_event
            (λ scope ts. (do
              scope_desc ← read_scope scope
              processor.on_begin_thread_scope block_id event_id scope_desc ts s))
            obj
        else if type_name obj ==ₛ "EndThreadSpanEvent"
        then on_thread_event
            (λ scope ts. (do
              scope_desc ← read_scope scope
              processor.on_end_thread_scope block_id event_id scope_desc ts s))
            obj
        else if type_name obj ==ₛ "BeginThreadNamedSpanEvent"
        then on_thread_named_event
            (λ scope name ts. (do
              scope_desc ← read_named_scope scope name
              processor.on_begin_thread_scope block_id event_id scope_desc ts s))
            obj
        else if type_name obj ==ₛ "EndThreadNamedSpanEvent"
        then on_thread_named_event
            (λ scope name ts. (do
              scope_desc ← read_named_scope scope name
              processor.on_end_thread_scope block_id event_id scope_desc ts s))
            obj
        else ok (s, true)

    -- The closure that is handed to `parse_block`; it captures the number of the next event.
    unfoldable pub on_thread_value : Value → ℤ × S → Result (Bool × (ℤ × S))
    on_thread_value (object obj) (event_id, s) = do
      (s', continue) ← on_thread_object obj event_id s
      ok (continue, (add_i64 event_id (pos 1), s'))
    on_thread_value _ (event_id, s) = ok (true, (add_i64 event_id (pos 1), s))

    unfoldable pub parse_thread_block_payload :
        Codec → ℤ → BlockPayload → StreamInfo → S → Result (Bool × S)
    parse_thread_block_payload c object_offset payload stream s = do
      (continue, (event_id, s')) ← parse_block c stream payload on_thread_value (object_offset, s)
      ok (continue, s')
