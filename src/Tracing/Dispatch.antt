-- ===== src/Tracing/Dispatch.antt =====
-- How rust/tracing/src/dispatch.rs handles a log: `Dispatch::log` and `Dispatch::log_interop`. What the
-- sink answers to `on_log_enabled`, the clock and the formatted text of the arguments come with a call.
pub mod Laws
mod Tests
use micromegas.Prelude.{
  ℕ, ℤ, Bool, true, false, not, List, [], ◌∷◌, ◌++◌, Option, none, some, Result, ok, ◌>>=◌,
  if◌then◌else◌,
}
use micromegas.Levels.Level
use micromegas.Transit.Queue.{QueueTypes}
use micromegas.Tracing.LogEvents.{
  StringId, LogMsgQueueAny, log_static_str_event, log_string_event, log_static_str_interop_event,
  log_string_interop_event,
}
use micromegas.Tracing.Dependencies.{LogMetadata, StaticString}
use micromegas.Tracing.Stream.{FlushTimes, EventBlock, EventStream, record_event}

-- `fmt::Arguments`: the static text, where there is nothing to format, and the formatted one.
pub record Arguments : Type 0 where
  pub as_str : Option StringId
  pub to_string : List ℕ

-- A call of the sink's `on_log`
pub record OnLog : Type 0 where
  pub metadata : LogMetadata
  pub time : ℤ
  pub args : Arguments

-- The part of `Dispatch` that logs change, with what the sink has got.
pub record LogDispatch : Type 0 where
  pub logs_buffer_size : ℕ
  pub log_stream : EventStream
  pub on_log_calls : List OnLog
  pub log_blocks : List EventBlock

unfoldable pub log_event : ℕ → ℤ → Arguments → LogMsgQueueAny
log_event desc time args = elim args.as_str [
  | none ↦ log_string_event (record { desc = desc; time = time; dyn_str = args.to_string })
  | some msg ↦ log_static_str_event (record { desc = desc; time = time })
]

module _ (intern_string : StaticString → StringId) where
  unfoldable pub log_interop_event : LogMetadata → ℤ → Arguments → LogMsgQueueAny
  log_interop_event desc time args =
      let level = Level.as_u32 desc.level in
      let target = intern_string desc.target in
      elim args.as_str [
        | none ↦
            log_string_interop_event
              (record { time = time; level = level; target = target; msg = args.to_string })
        | some msg ↦
            log_static_str_interop_event
              (record { time = time; level = level; target = target; msg = msg })
      ]

  module _ (metadata_at : ℕ → LogMetadata) (with_capacity : ℕ → ℕ)
      (queue : QueueTypes LogMsgQueueAny) where
    -- What both handlers do with the event.
    push_log : FlushTimes → LogMsgQueueAny → OnLog → LogDispatch → Result LogDispatch
    push_log now e call d = do
      (log_stream, log_blocks) ←
          record_event with_capacity queue now d.logs_buffer_size e (d.log_stream, d.log_blocks)
      ok (record d {
        log_stream = log_stream;
        on_log_calls = d.on_log_calls ++ call ∷ [];
        log_blocks = log_blocks;
      })

    unfoldable pub log : Bool → FlushTimes → ℕ → ℤ → Arguments → LogDispatch → Result LogDispatch
    unfolding push_log
    log log_enabled now desc time args d =
        let handled =
          push_log now (log_event desc time args)
            (record { metadata = metadata_at desc; time = time; args = args }) d in
        if not log_enabled then ok d else handled

    unfoldable pub log_interop :
        FlushTimes → LogMetadata → ℤ → Arguments → LogDispatch → Result LogDispatch
    unfolding push_log
    log_interop now desc time args d =
        push_log now (log_interop_event desc time args)
          (record { metadata = desc; time = time; args = args }) d

    -- A call of the public `log`, with the answer of the sink, or of `log_interop`.
    pub data LogCall : Type 0 where
      log_call : Bool → FlushTimes → ℕ → ℤ → Arguments → LogCall
      log_interop_call : FlushTimes → LogMetadata → ℤ → Arguments → LogCall

    unfoldable pub handle : LogCall → LogDispatch → Result LogDispatch
    handle (log_call log_enabled now desc time args) d = log log_enabled now desc time args d
    handle (log_interop_call now desc time args) d = log_interop now desc time args d

    unfoldable pub handle_all : List LogCall → LogDispatch → Result LogDispatch
    handle_all [] d = ok d
    handle_all (c ∷ cs) d = do d' ← handle c d; handle_all cs d'
