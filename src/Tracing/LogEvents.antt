-- ===== src/Tracing/LogEvents.antt =====
-- The events of a log stream (rust/tracing/src/logs/events.rs, rust/tracing/src/string_id.rs) and
-- the queue that `declare_queue_struct!` makes for them (rust/tracing/src/logs/block.rs). A reference
-- to a `LogMetadata` and the pointer of a string are their addresses.
pub mod Laws
use micromegas.Prelude.{
  ℕ, ◌+◌, ◌-◌, ◌%◌, ◌^◌, ℤ, bits_of_i64, List, [], ◌∷◌, ◌++◌, Option, none, some, Result, ok, panic,
  or_fail, ◌>>=◌, length,
}
use micromegas.Transit.Bytes.{le_bytes, write_any, read_any, read_i64}
use micromegas.Transit.Strings.{dyn_string_size, write_dyn_string, read_dyn_string}
use micromegas.Transit.Queue.{InProcSize, const, dynamic, InProcSerialize, QueueTypes}

pub record StringId : Type 0 where
  pub ptr : ℕ
  pub len : ℕ

pub record LogStaticStrEvent : Type 0 where
  pub desc : ℕ
  pub time : ℤ

pub record LogStringEvent : Type 0 where
  pub desc : ℕ
  pub time : ℤ
  pub dyn_str : List ℕ

pub record LogStaticStrInteropEvent : Type 0 where
  pub time : ℤ
  pub level : ℕ
  pub target : StringId
  pub msg : StringId

pub record LogStringInteropEvent : Type 0 where
  pub time : ℤ
  pub level : ℕ
  pub target : StringId
  pub msg : List ℕ

-- The memory of a value that is written and read as it stands. The compiler chooses the layout.
pub record Layout (T : Type 0) : Type 0 where
  pub size_of : ℕ
  pub image : T → List ℕ
  pub read : List ℕ → ℕ → Result T

pub data LogMsgQueueAny : Type 0 where
  log_static_str_event : LogStaticStrEvent → LogMsgQueueAny
  log_string_event : LogStringEvent → LogMsgQueueAny
  log_static_str_interop_event : LogStaticStrInteropEvent → LogMsgQueueAny
  log_string_interop_event : LogStringInteropEvent → LogMsgQueueAny

-- `LogStringEvent::get_value_size`, `write_value` and `read_value`
unfoldable pub string_event_size : LogStringEvent → ℕ
string_event_size e = (8 + 8 + dyn_string_size e.dyn_str) % 2 ^ 32

unfoldable pub write_string_event : LogStringEvent → List ℕ → List ℕ
unfolding write_any
write_string_event e buffer =
    write_any 8 (bits_of_i64 e.time) (write_any 8 e.desc buffer) ++ write_dyn_string e.dyn_str

unfoldable pub read_string_event : List ℕ → ℕ → Option ℕ → Result LogStringEvent
read_string_event buffer ptr value_size = do
  desc ← read_any 8 buffer ptr
  time ← read_i64 buffer (ptr + 8)
  buffer_size ← or_fail value_size panic
  msg ← read_dyn_string buffer (ptr + 16) (some ((buffer_size + 2 ^ 32 - 16) % 2 ^ 32))
  ok (record { desc = desc; time = time; dyn_str = msg })

module _ (string_id : Layout StringId) where
  -- `LogStringInteropEvent::get_value_size`, `write_value` and `read_value`
  unfoldable pub interop_event_size : LogStringInteropEvent → ℕ
  interop_event_size e = (8 + 4 + string_id.size_of + dyn_string_size e.msg) % 2 ^ 32

  unfoldable pub write_interop_event : LogStringInteropEvent → List ℕ → List ℕ
  unfolding write_any
  write_interop_event e buffer =
      (write_any 4 e.level (write_any 8 (bits_of_i64 e.time) buffer) ++ string_id.image e.target)
      ++ write_dyn_string e.msg

  unfoldable pub read_interop_event : List ℕ → ℕ → Option ℕ → Result LogStringInteropEvent
  read_interop_event buffer ptr value_size = do
    time ← read_i64 buffer ptr
    level ← read_any 4 buffer (ptr + 8)
    target ← string_id.read buffer (ptr + 12)
    buffer_size ← or_fail value_size panic
    let msg_offset = 12 + string_id.size_of
    msg ←
        read_dyn_string buffer (ptr + msg_offset)
          (some ((buffer_size + 2 ^ 32 - msg_offset) % 2 ^ 32))
    ok (record { time = time; level = level; target = target; msg = msg })

-- The default of `InProcSerialize`, for the values of one type of a queue.
abbrev pub pod : {A T : Type 0} → (T → A) → (A → Option T) → Layout T → InProcSerialize A
pod wrap unwrap layout = record {
  in_proc_size = const layout.size_of;
  get_value_size = λ v. none;
  write_value = λ v. elim (unwrap v) [ none ↦ [] | some x ↦ layout.image x ];
  read_value = λ buffer ptr value_size. (do x ← layout.read buffer ptr; ok (wrap x));
}

-- A type that writes itself, for the values of one type of a queue.
abbrev pub custom :
    {A T : Type 0}
    → (T → A)
    → (A → Option T)
    → (T → ℕ)
    → (T → List ℕ → List ℕ)
    → (List ℕ → ℕ → Option ℕ → Result T)
    → InProcSerialize A
custom wrap unwrap value_size write read = record {
  in_proc_size = dynamic;
  get_value_size = λ v. elim (unwrap v) [ none ↦ none | some x ↦ some (value_size x) ];
  write_value = λ v. elim (unwrap v) [ none ↦ [] | some x ↦ write x [] ];
  read_value = λ buffer ptr size. (do x ← read buffer ptr size; ok (wrap x));
}

abbrev as_static_str : LogMsgQueueAny → Option LogStaticStrEvent
as_static_str (log_static_str_event e) = some e
as_static_str _ = none

abbrev as_string : LogMsgQueueAny → Option LogStringEvent
as_string (log_string_event e) = some e
as_string _ = none

abbrev as_static_str_interop : LogMsgQueueAny → Option LogStaticStrInteropEvent
as_static_str_interop (log_static_str_interop_event e) = some e
as_static_str_interop _ = none

abbrev as_string_interop : LogMsgQueueAny → Option LogStringInteropEvent
as_string_interop (log_string_interop_event e) = some e
as_string_interop _ = none

abbrev pub log_type_index : LogMsgQueueAny → ℕ
log_type_index (log_static_str_event _) = 0
log_type_index (log_string_event _) = 1
log_type_index (log_static_str_interop_event _) = 2
log_type_index (log_string_interop_event _) = 3

module _ (static_str : Layout LogStaticStrEvent)
    (static_str_interop : Layout LogStaticStrInteropEvent) (string_id : Layout StringId) where
  abbrev serialize_static_str : InProcSerialize LogMsgQueueAny
  serialize_static_str = pod log_static_str_event as_static_str static_str

  abbrev serialize_string : InProcSerialize LogMsgQueueAny
  serialize_string =
      custom log_string_event as_string string_event_size write_string_event read_string_event

  abbrev serialize_static_str_interop : InProcSerialize LogMsgQueueAny
  serialize_static_str_interop =
      pod log_static_str_interop_event as_static_str_interop static_str_interop

  abbrev serialize_string_interop : InProcSerialize LogMsgQueueAny
  serialize_string_interop =
      custom log_string_interop_event as_string_interop (interop_event_size string_id)
        (write_interop_event string_id) (read_interop_event string_id)

  abbrev log_serializer : LogMsgQueueAny → InProcSerialize LogMsgQueueAny
  log_serializer (log_static_str_event _) = serialize_static_str
  log_serializer (log_string_event _) = serialize_string
  log_serializer (log_static_str_interop_event _) = serialize_static_str_interop
  log_serializer (log_string_interop_event _) = serialize_string_interop

  -- `LogMsgQueue`
  abbrev pub log_msg_queue : QueueTypes LogMsgQueueAny
  log_msg_queue = record {
    type_index = log_type_index;
    serializer = log_serializer;
    types =
        serialize_static_str ∷ serialize_string ∷ serialize_static_str_interop
        ∷ serialize_string_interop ∷ [];
  }
