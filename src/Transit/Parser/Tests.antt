-- ===== src/Transit/Parser/Tests.antt =====
-- The theorems on the parser of transit streams at concrete inputs.
use micromegas.Prelude.{
  ℕ, ◌+◌, ◌<◌, ◌^◌, ◌≡◌, ◌≢◌, refl, inr, negsuc, Bool, true, false, String, List, [], ◌∷◌, ◌++◌,
  map, none, Result, ok, err, bail, out_of_fuel, ◌>>=◌, if◌then◌else◌, length, arith, bits_of_i64,
}
use text.Mathlib.Text.{◌==◌ as ◌==ₛ◌}
use micromegas.Transit.Bytes.{le_bytes, read_any, length-le_bytes, read_any-le_bytes}
use micromegas.Transit.Value.{
  UserDefinedType, Value, object, u64, i64, object_of, no_members, member, get_u64, get_i64,
  get_u64-get_i64,
}
use micromegas.Transit.Queue.{const, InProcSerialize, QueueTypes, Queue, new, push_all}
use micromegas.Transit.Queue.Laws.{Fits}
use micromegas.Transit.Parser.{parse_pod_instance, parse_members, parse_member, finish_instance}
use micromegas.Transit.Parser.Objects.{
  read_header, next_object, parse_instance, parse_objects, parse_object_buffer,
}
use micromegas.Transit.Parser.Objects.Encoded.{for_each, Parses}
use micromegas.Transit.Parser.Objects.Laws.{
  parse_object_buffer-push_all, parse_object_buffer-bad_index,
}
use micromegas.Transit.Parser.Objects.Total.{parse_object_buffer-Ends}

-- A queue of one type, whose values are numbers of 64 bits.
abbrev ticks : InProcSerialize ℕ
ticks = record {
  in_proc_size = const 8;
  get_value_size = λ n. none;
  write_value = λ n. le_bytes 8 n;
  read_value = λ buffer ptr size. read_any 8 buffer ptr;
}

abbrev tick_queue : QueueTypes ℕ
tick_queue = record { type_index = λ n. 0; serializer = λ n. ticks; types = ticks ∷ [] }

abbrev tick_udt : UserDefinedType
tick_udt = record {
  name = "Tick";
  size = 8;
  members =
      record { name = "ticks"; type_name = "u64"; offset = 0; size = 8; is_reference = false } ∷ [];
  is_reference = false;
}

-- A type that holds a value of the other.
abbrev pair_udt : UserDefinedType
pair_udt = record {
  name = "Pair";
  size = 8;
  members =
      record { name = "first"; type_name = "Tick"; offset = 0; size = 8; is_reference = false }
      ∷ [];
  is_reference = false;
}

abbrev tick_value : ℕ → Value
tick_value n = object (object_of "Tick" (member "ticks" (u64 n) no_members))

abbrev same_bytes : List ℕ → List ℕ
same_bytes bytes = bytes

-- A callback that counts the objects.
abbrev count : Value → ℕ → Result (Bool × ℕ)
count v n = ok (true, n + 1)

tick-Fits : (n : ℕ) → n < 256 ^ 8 → Fits tick_queue n
tick-Fits n h = record {
  indexed = refl;
  encodes = (length-le_bytes 8 n, λ front back. read_any-le_bytes 8 n front back h);
}

at_zero : (n : ℕ) → n + 0 ≡ n
at_zero n = omega arith

tick-Parses : (n : ℕ) → n < 256 ^ 8 → Parses same_bytes 1 [] (tick_udt ∷ []) tick_queue tick_value n
unfolding parse_pod_instance parse_members parse_member finish_instance
tick-Parses n h = record {
  udt = tick_udt;
  described = refl;
  small = omega (arith, length-le_bytes 8 n);
  decodes = (
    refl,
    refl,
    λ front back. rw (at_zero (length front), read_any-le_bytes 8 n front back h) refl,
  );
}

abbrev two_ticks : List ℕ
two_ticks = 5 ∷ 300 ∷ []

parse_object_buffer-push_all_example :
    (q : Queue) × (push_all tick_queue two_ticks new ≡ ok q)
    × (parse_object_buffer same_bytes 1 [] (tick_udt ∷ []) q.buffer count 0
        ≡ for_each count (map tick_value two_ticks) 0)
parse_object_buffer-push_all_example =
    parse_object_buffer-push_all same_bytes 1 [] (tick_udt ∷ []) tick_queue tick_value count
      two_ticks 0 (tick-Fits 5 (omega arith), (tick-Fits 300 (omega arith), tt))
      (tick-Parses 5 (omega arith), (tick-Parses 300 (omega arith), tt))

parse_object_buffer-bad_index_example :
    (q : Queue) × (push_all tick_queue two_ticks new ≡ ok q)
    × (parse_object_buffer same_bytes 1 [] (tick_udt ∷ []) (q.buffer ++ 9 ∷ 1 ∷ []) count 0 ≡ (
        for_each count (map tick_value two_ticks) 0 >>= λ (continue, s').
        if continue then err bail else ok (false, s')))
parse_object_buffer-bad_index_example =
    parse_object_buffer-bad_index same_bytes 1 [] (tick_udt ∷ []) tick_queue tick_value count
      two_ticks 9 (1 ∷ []) 0 (tick-Fits 5 (omega arith), (tick-Fits 300 (omega arith), tt))
      (tick-Parses 5 (omega arith), (tick-Parses 300 (omega arith), tt)) refl

abbrev name_rank : String → ℕ
name_rank name = if name ==ₛ "Pair" then 2 else if name ==ₛ "Tick" then 1 else 0

abbrev some_bytes : List ℕ
some_bytes = 1 ∷ 2 ∷ 3 ∷ []

count-returns : (v : Value) (s : ℕ) → count v s ≢ err out_of_fuel
count-returns v s h = cc

parse_object_buffer-Ends_example :
    parse_object_buffer same_bytes 3 [] (tick_udt ∷ pair_udt ∷ []) some_bytes count 0
    ≢ err out_of_fuel
parse_object_buffer-Ends_example =
    parse_object_buffer-Ends same_bytes name_rank 3 [] (tick_udt ∷ pair_udt ∷ [])
      (
        ((inr (omega arith), tt), omega arith, omega arith),
        (((inr (omega arith), tt), omega arith, omega arith), tt),
      )
      some_bytes (omega arith, (omega arith, (omega arith, tt))) (omega arith) count count-returns 0

-- A type of 2^64 - 1 bytes: the offset wraps around to the object that was just parsed.
abbrev huge_udt : UserDefinedType
huge_udt = record { name = "Huge"; size = 0xffffffffffffffff; members = []; is_reference = false }

huge_size_loops :
    parse_object_buffer same_bytes 3 [] (huge_udt ∷ []) (0 ∷ []) count 0 ≡ err out_of_fuel
unfolding parse_object_buffer parse_objects read_header next_object parse_instance
    parse_pod_instance parse_members finish_instance
huge_size_loops = refl

get_u64-get_i64_example :
    get_u64 (i64 (negsuc 0)) ≡ (get_i64 (i64 (negsuc 0)) >>= λ i. ok (bits_of_i64 i))
get_u64-get_i64_example = get_u64-get_i64 (i64 (negsuc 0)) tt
