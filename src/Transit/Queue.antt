-- ===== src/Transit/Queue.antt =====
-- The heterogeneous queue that `declare_queue_struct!` generates (rust/transit/derive/src/
-- declare_queue.rs), its iterator (rust/transit/src/heterogeneous_queue.rs) and the trait
-- `InProcSerialize` of the values that it holds (rust/transit/src/serialize.rs).
pub mod Laws
use micromegas.Prelude.{
  ℕ, zero, suc, ◌+◌, List, [], ◌∷◌, ◌++◌, Option, none, some, Result, ok, err, panic, out_of_fuel,
  or_fail, guard, ◌>>=◌, ◌>>◌, ltb, ◌==◌, if◌then◌else◌, length, get_elem?,
}
use micromegas.Transit.Bytes.{le_bytes, write_any, read_any}

-- `InProcSize`
pub data InProcSize : Type 0 where
  const : ℕ → InProcSize
  dynamic : InProcSize

-- `InProcSerialize` of one of the types in the queue, over the enumeration `A` of all of them:
-- the bytes that `write_value` appends, and `read_value` at an offset with the size of the value.
pub record InProcSerialize (A : Type 0) : Type 0 where
  pub in_proc_size : InProcSize
  pub get_value_size : A → Option ℕ
  pub write_value : A → List ℕ
  pub read_value : List ℕ → ℕ → Option ℕ → Result A

-- What `declare_queue_struct!` is given: the type index of each value, the trait of its type, and
-- the traits of all types in the order of their indices.
pub record QueueTypes (A : Type 0) : Type 0 where
  pub type_index : A → ℕ
  pub serializer : A → InProcSerialize A
  pub types : List (InProcSerialize A)

pub record Queue : Type 0 where
  pub buffer : List ℕ
  pub obj_counter : ℕ

-- `new`: the capacity is the allocator's business.
abbrev pub new : Queue
new = record { buffer = []; obj_counter = 0 }

abbrev pub len_bytes : Queue → ℕ
len_bytes q = length q.buffer

abbrev pub nb_objects : Queue → ℕ
nb_objects q = q.obj_counter

module _ {A : Type 0} (d : QueueTypes A) where
  -- The body of `push` behind the type discriminant, where the buffer is `before`.
  push_value : InProcSize → A → List ℕ → Result (List ℕ)
  push_value (const size) value before = do
    let written = before ++ (d.serializer value).write_value value
    guard (length written == length before + size) panic
    ok written
  push_value dynamic value before = do
    value_size ← or_fail ((d.serializer value).get_value_size value) panic
    let written = write_any 4 value_size before ++ (d.serializer value).write_value value
    guard (length written == length before + 4 + value_size) panic
    ok written

  unfoldable pub push : A → Queue → Result Queue
  unfolding push_value
  push value q = do
    buffer ←
        push_value (d.serializer value).in_proc_size value (q.buffer ++ d.type_index value ∷ [])
    ok (record { buffer = buffer; obj_counter = q.obj_counter + 1 })

  -- One arm of the `match index` of `read_value_at_offset`.
  read_object : InProcSerialize A → InProcSize → List ℕ → ℕ → Result (A × ℕ)
  read_object t (const size) buffer offset = do
    obj ← t.read_value buffer (offset + 1) none
    ok (obj, offset + 1 + size)
  read_object t dynamic buffer offset = do
    size_instance ← read_any 4 buffer (offset + 1)
    obj ← t.read_value buffer (offset + 1 + 4) (some size_instance)
    ok (obj, offset + 1 + 4 + size_instance)

  unfoldable pub read_value_at_offset : List ℕ → ℕ → Result (A × ℕ)
  unfolding read_object
  read_value_at_offset buffer offset = do
    index ← or_fail (get_elem? buffer offset) panic
    t ← or_fail (get_elem? d.types index) panic
    read_object t t.in_proc_size buffer offset

  -- `QueueIterator::next` until it returns `None`, with fuel for the number of calls.
  iterate : ℕ → List ℕ → ℕ → Result (List A)
  iterate zero buffer offset = if ltb offset (length buffer) then err out_of_fuel else ok []
  iterate (suc fuel) buffer offset =
      let rest = (do
        (obj, next_offset) ← read_value_at_offset buffer offset
        objs ← iterate fuel buffer next_offset
        ok (obj ∷ objs)) in
      if ltb offset (length buffer) then rest else ok []

  -- Every object takes a byte at least, so the length of the buffer is fuel enough.
  unfoldable pub iter : Queue → Result (List A)
  unfolding iterate
  iter q = iterate (len_bytes q) q.buffer 0

  unfoldable pub push_all : List A → Queue → Result Queue
  push_all [] q = ok q
  push_all (v ∷ vs) q = do q' ← push v q; push_all vs q'
