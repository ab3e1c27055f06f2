-- ===== src/Tracing/LogEvents/Laws.antt =====
-- The log queue gives back the log events that were pushed.
use micromegas.Prelude.{
  ℕ, ◌+◌, ◌-◌, ◌%◌, ◌^◌, ◌<◌, ◌≡◌, refl, ap, true, IsI64, bits_of_i64, List, [], ◌∷◌, ◌++◌, some,
  ok, length, length-append, append_assoc, arith, All,
}
use micromegas.Transit.Bytes.{
  le_bytes, write_any, read_any, read_i64, length-le_bytes, read_any-le_bytes, read_i64-le_bytes,
}
use micromegas.Transit.Utf8.{is_utf8}
use micromegas.Transit.Strings.{read_dyn_string, read_dyn_string_lem}
use micromegas.Transit.Queue.{Queue, new, nb_objects, push_all, iter}
use micromegas.Transit.Queue.Laws.{Fits, iter-push_all}
use micromegas.Tracing.LogEvents.{
  StringId, LogStaticStrEvent, LogStringEvent, LogStaticStrInteropEvent, LogStringInteropEvent,
  Layout, LogMsgQueueAny, log_static_str_event, log_string_event, log_static_str_interop_event,
  log_string_interop_event, string_event_size, write_string_event, read_string_event,
  interop_event_size, write_interop_event, read_interop_event, log_msg_queue,
}

-- What the memory of a value promises: it has the size of the type, and reading it gives the value.
pub record IsLayout {T : Type 0} (layout : Layout T) (x : T) : Type 0 where
  pub size : length (layout.image x) ≡ layout.size_of
  pub read_back :
      (front back : List ℕ) → layout.read (front ++ (layout.image x ++ back)) (length front) ≡ ok x

-- The size that is written in front, without the wrap.
u32_minus : (n k : ℕ) → n + k < 2 ^ 32 → (n + k + 2 ^ 32 - n) % 2 ^ 32 ≡ k
u32_minus n k h = omega arith

+-8-8 : (n : ℕ) → n + 8 + 8 ≡ n + 16
+-8-8 n = omega arith

pub record StringFits (e : LogStringEvent) : Type 0 where
  pub desc_u64 : e.desc < 256 ^ 8
  pub time_i64 : IsI64 e.time
  pub utf8 : is_utf8 e.dyn_str ≡ true
  pub small : 16 + length e.dyn_str < 2 ^ 32

string_event_size_lem :
    (e : LogStringEvent) → StringFits e → string_event_size e ≡ 16 + length e.dyn_str
unfolding string_event_size
string_event_size_lem e fits = omega (arith, fits.small)

pub length-write_string_event :
    (e : LogStringEvent) → length (write_string_event e []) ≡ 16 + length e.dyn_str
unfolding write_string_event write_any
length-write_string_event e = omega (
  arith,
  length-append (le_bytes 8 e.desc ++ le_bytes 8 (bits_of_i64 e.time)) e.dyn_str,
  length-append (le_bytes 8 e.desc) (le_bytes 8 (bits_of_i64 e.time)),
  length-le_bytes 8 e.desc,
  length-le_bytes 8 (bits_of_i64 e.time),
)

pub read_string_event_lem :
    (e : LogStringEvent) (front back : List ℕ)
    → StringFits e
    → read_string_event
        (front ++ (write_string_event e [] ++ back))
        (length front)
        (some (16 + length e.dyn_str))
      ≡ ok e
unfolding read_string_event write_string_event write_any
read_string_event_lem e front back fits =
    let d = le_bytes 8 e.desc in
    let t = le_bytes 8 (bits_of_i64 e.time) in
    let text = e.dyn_str in
    let at_desc = read_any-le_bytes 8 e.desc front (t ++ (text ++ back)) fits.desc_u64 in
    let at_time : read_i64 (front ++ (d ++ (t ++ (text ++ back)))) (length front + 8) ≡ ok e.time =
      rw (append_assoc, length-append, length-le_bytes) at
        (read_i64-le_bytes e.time (front ++ d) (text ++ back) fits.time_i64) in
    let at_text : read_dyn_string (front ++ (d ++ (t ++ (text ++ back)))) (length front + 16)
          (some ((16 + length text + 2 ^ 32 - 16) % 2 ^ 32))
        ≡ ok text =
      rw (u32_minus 16 (length text) fits.small) (
        rw
          (
            length-append, length-append, length-le_bytes, length-le_bytes, +-8-8, append_assoc,
            append_assoc,
          )
          at (read_dyn_string_lem ((front ++ d) ++ t) text back fits.utf8)) in
    rw (append_assoc, append_assoc, at_desc, at_time, at_text)

module _ (string_id : Layout StringId) where
  pub record InteropFits (e : LogStringInteropEvent) : Type 0 where
    pub time_i64 : IsI64 e.time
    pub level_u32 : e.level < 256 ^ 4
    pub target_layout : IsLayout string_id e.target
    pub utf8 : is_utf8 e.msg ≡ true
    pub small : 12 + string_id.size_of + length e.msg < 2 ^ 32

  interop_event_size_lem :
      (e : LogStringInteropEvent)
      → InteropFits e
      → interop_event_size string_id e ≡ 12 + string_id.size_of + length e.msg
  unfolding interop_event_size
  interop_event_size_lem e fits = omega (arith, fits.small)

  length-write_interop_event :
      (e : LogStringInteropEvent)
      → InteropFits e
      → length (write_interop_event string_id e []) ≡ 12 + string_id.size_of + length e.msg
  unfolding write_interop_event write_any
  length-write_interop_event e fits =
      let t = le_bytes 8 (bits_of_i64 e.time) in
      let l = le_bytes 4 e.level in
      omega (
        arith,
        length-append ((t ++ l) ++ string_id.image e.target) e.msg,
        length-append (t ++ l) (string_id.image e.target),
        length-append t l,
        length-le_bytes 8 (bits_of_i64 e.time),
        length-le_bytes 4 e.level,
        fits.target_layout.size,
      )

  offset : (n : ℕ) → n + 8 + 4 ≡ n + 12
  offset n = omega arith

  text_offset : (n k : ℕ) → n + 8 + 4 + k ≡ n + (12 + k)
  text_offset n k = omega arith

  read_interop_event_lem :
      (e : LogStringInteropEvent) (front back : List ℕ)
      → InteropFits e
      → read_interop_event string_id
          (front ++ (write_interop_event string_id e [] ++ back))
          (length front)
          (some (12 + string_id.size_of + length e.msg))
        ≡ ok e
  unfolding read_interop_event write_interop_event write_any
  read_interop_event_lem e front back fits =
      let t = le_bytes 8 (bits_of_i64 e.time) in
      let l = le_bytes 4 e.level in
      let i = string_id.image e.target in
      let text = e.msg in
      let law = fits.target_layout in
      let bytes = front ++ (t ++ (l ++ (i ++ (text ++ back)))) in
      let at_time = read_i64-le_bytes e.time front (l ++ (i ++ (text ++ back))) fits.time_i64 in
      let at_level : read_any 4 bytes (length front + 8) ≡ ok e.level =
        rw (append_assoc, length-append, length-le_bytes) at
          (read_any-le_bytes 4 e.level (front ++ t) (i ++ (text ++ back)) fits.level_u32) in
      let at_target : string_id.read bytes (length front + 12) ≡ ok e.target =
        rw
          (
            length-append, length-append, length-le_bytes, length-le_bytes, offset, append_assoc,
            append_assoc,
          )
          at (law.read_back ((front ++ t) ++ l) (text ++ back)) in
      let at_text : read_dyn_string bytes (length front + (12 + string_id.size_of)) (
            some
              ((12 + string_id.size_of + length text + 2 ^ 32 - (12 + string_id.size_of)) % 2 ^ 32))
          ≡ ok text =
        rw (u32_minus (12 + string_id.size_of) (length text) fits.small) (
          rw
            (
              length-append, length-append, length-append, length-le_bytes, length-le_bytes,
              law.size, text_offset, append_assoc, append_assoc, append_assoc,
            )
            at (read_dyn_string_lem (((front ++ t) ++ l) ++ i) text back fits.utf8)) in
      rw (append_assoc, append_assoc, append_assoc, at_time, at_level, at_target, at_text)

module _ (static_str : Layout LogStaticStrEvent)
    (static_str_interop : Layout LogStaticStrInteropEvent) (string_id : Layout StringId) where
  -- The values of an event are in the ranges of their machine types, and its text is UTF-8 of less
  -- than 4 GB.
  abbrev pub EventFits : LogMsgQueueAny → Type 0
  EventFits (log_static_str_event e) = IsLayout static_str e
  EventFits (log_string_event e) = StringFits e
  EventFits (log_static_str_interop_event e) = IsLayout static_str_interop e
  EventFits (log_string_interop_event e) = InteropFits string_id e

  pub event-Fits :
      (v : LogMsgQueueAny)
      → EventFits v
      → Fits (log_msg_queue static_str static_str_interop string_id) v
  event-Fits (log_static_str_event e) fits = record {
    indexed = refl;
    encodes = (fits.size, λ front back. rw (fits.read_back front back));
  }
  event-Fits (log_string_event e) fits = record {
    indexed = refl;
    encodes = (
      16 + length e.dyn_str,
      ap some (string_event_size_lem e fits),
      omega (arith, fits.small),
      length-write_string_event e,
      λ front back. rw (read_string_event_lem e front back fits),
    );
  }
  event-Fits (log_static_str_interop_event e) fits = record {
    indexed = refl;
    encodes = (fits.size, λ front back. rw (fits.read_back front back));
  }
  event-Fits (log_string_interop_event e) fits = record {
    indexed = refl;
    encodes = (
      12 + string_id.size_of + length e.msg,
      ap some (interop_event_size_lem string_id e fits),
      omega (arith, fits.small),
      length-write_interop_event string_id e fits,
      λ front back. rw (read_interop_event_lem string_id e front back fits),
    );
  }

  pub events-Fits :
      (events : List LogMsgQueueAny)
      → All EventFits events
      → All (Fits (log_msg_queue static_str static_str_interop string_id)) events
  events-Fits [] fits = tt
  events-Fits (e ∷ es) (fit, fits) = (event-Fits e fit, events-Fits es fits)

  -- Log events of all four kinds, with values in the ranges of their machine types, memory that reads
  -- back what was written and texts of UTF-8 of less than 4 GB, are counted and read back as they were,
  -- in whatever order they are pushed.
  pub iter-push_all_logs :
      (events : List LogMsgQueueAny)
      → All EventFits events
      → (q : Queue) × (push_all (log_msg_queue static_str static_str_interop string_id) events new
          ≡ ok q)
        × (nb_objects q ≡ length events)
        × (iter (log_msg_queue static_str static_str_interop string_id) q ≡ ok events)
  iter-push_all_logs events fits =
      iter-push_all (log_msg_queue static_str static_str_interop string_id) events
        (events-Fits events fits)
