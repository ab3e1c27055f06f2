-- ===== src/Analytics/ThreadBlock/Payload/Tests.antt =====
-- The objects of a concrete thread block.
use micromegas.Prelude.{ℕ, ◌+◌, pos, ◌≡◌, refl, true, List, [], ◌∷◌, map, ok, ◌>>=◌, length}
use micromegas.Transit.Value.{
  string, u32, Object, object_of, no_members, member, get, find_member, get_u32, get_string,
}
use micromegas.Transit.Parser.Objects.Encoded.{for_each}
use micromegas.Analytics.Scope.{ScopeDesc, new_scope}
use micromegas.Analytics.ThreadBlock.{ThreadBlockProcessor, process_events}
use micromegas.Analytics.ThreadBlock.Payload.{read_scope, on_thread_value}
use micromegas.Analytics.ThreadBlock.Payload.Laws.{
  SpanObject, begin_span, end_span, begin_async, end_async_named, async_span, value_of_span,
  numbered, for_each-process_events,
}

abbrev size : List ℕ → ℕ → ℕ
size bytes seed = length bytes + seed

-- A processor that counts its calls.
abbrev counter : ThreadBlockProcessor ℕ
counter = record {
  on_begin_thread_scope = λ block_id event_id scope ts n. ok (n + 1, true);
  on_end_thread_scope = λ block_id event_id scope ts n. ok (n + 1, true);
}

abbrev a_text : List ℕ
a_text = 97 ∷ []

abbrev a_span : Object
a_span = object_of "SpanRecord" (
    member "name" (string a_text) (
      member "target" (string a_text)
        (member "file" (string a_text) (member "line" (u32 3) no_members))))

abbrev a_scope : ScopeDesc
a_scope = new_scope size a_text a_text a_text 3

a_span-read : read_scope size a_span ≡ ok a_scope
unfolding read_scope get find_member get_u32 get_string
a_span-read = refl

abbrev four_spans : List SpanObject
four_spans =
    begin_span a_span a_scope (pos 5)
    ∷ async_span begin_async no_members
    ∷ async_span end_async_named no_members
    ∷ end_span a_span a_scope (pos 9)
    ∷ []

for_each-process_events_example :
    (for_each (on_thread_value size counter "b1") (map value_of_span four_spans) (pos 7, 0)
      >>= λ (continue, (id, s')). ok (s', continue))
    ≡ process_events counter "b1" (numbered (pos 7) four_spans) 0
for_each-process_events_example =
    for_each-process_events size counter "b1" four_spans (pos 7) 0
      (a_span-read, (tt, (tt, (a_span-read, tt))))
