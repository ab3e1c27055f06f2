-- ===== src/Tracing/Dependencies/Recorded.antt =====
-- What recording a string or a metadata keeps, in `extract` of rust/tracing/src/logs/block.rs.
use micromegas.Prelude.{
  ℕ, ◌≡◌, sym, ◌∙◌, Bool, true, false, ◌||◌, List, [], ◌∷◌, ◌==◌, Bool-cases, inl, inr, arith,
  Option, none, some,
}
use micromegas.Tracing.Dependencies.{
  StaticString, LogMetadata, LogDep, static_string, log_metadata_record, contains, Deps, add_string,
  record_of, add_strings, record_log_event_dependencies,
}

-- The address under which the reader finds a dependency.
abbrev pub id_of : LogDep → ℕ
id_of (static_string s) = s.ptr
id_of (log_metadata_record r) = r.id

abbrev pub ids : List LogDep → List ℕ
ids [] = []
ids (d ∷ ds) = id_of d ∷ ids ds

abbrev pub IsDistinct : List ℕ → Type 0
IsDistinct [] = Unit {0}
IsDistinct (i ∷ is) = (contains i is ≡ false) × IsDistinct is

-- The strings of a metadata record are among the dependencies that were pushed before it.
abbrev pub Refers : LogDep → List LogDep → Type 0
Refers (static_string s) before = Unit {0}
Refers (log_metadata_record r) before =
    (contains r.fmt_str (ids before) ≡ true)
    × (contains r.target (ids before) ≡ true)
    × (contains r.module_path (ids before) ≡ true)
    × (contains r.file (ids before) ≡ true)

abbrev pub IsOrdered : List LogDep → Type 0
IsOrdered [] = Unit {0}
IsOrdered (d ∷ ds) = Refers d ds × IsOrdered ds

abbrev pub is_extra : ℕ → Option ℕ → Bool
is_extra i none = false
is_extra i (some e) = i == e

abbrev pub IsApart : Option ℕ → List ℕ → Type 0
IsApart none is = Unit {0}
IsApart (some e) is = contains e is ≡ false

-- The set is that of the dependencies and, in the middle of a metadata, of its address.
pub record IsRecorded (extra : Option ℕ) (d : Deps) : Type 0 where
  pub recorded :
      (i : ℕ) → contains i d.recorded_deps ≡ (is_extra i extra || contains i (ids d.deps))
  pub distinct : IsDistinct (ids d.deps)
  pub apart : IsApart extra (ids d.deps)
  pub ordered : IsOrdered d.deps

-- What an operation that records the address `i` keeps: the set of dependencies grows, and has `i`.
pub record Adds (extra : Option ℕ) (i : ℕ) (d d' : Deps) : Type 0 where
  pub valid : IsRecorded extra d'
  pub grows : (j : ℕ) → contains j (ids d.deps) ≡ true → contains j (ids d'.deps) ≡ true
  pub added : contains i (ids d'.deps) ≡ true

pub contains-cons : (i j : ℕ) (js : List ℕ) → contains i js ≡ true → contains i (j ∷ js) ≡ true
unfolding contains
contains-cons i j js h = ground arith

pub contains_self : (i : ℕ) (js : List ℕ) → contains i (i ∷ js) ≡ true
unfolding contains
contains_self i js = ground arith

pub IsApart-cons :
    (extra : Option ℕ) (i : ℕ) (is : List ℕ)
    → is_extra i extra ≡ false
    → IsApart extra is
    → IsApart extra (i ∷ is)
unfolding contains
IsApart-cons none i is h k = tt
IsApart-cons (some e) i is h k = ground arith

pub recorded-cons :
    (extra : Option ℕ) (p i : ℕ) (rec is : List ℕ)
    → contains i rec ≡ (is_extra i extra || contains i is)
    → contains i (p ∷ rec) ≡ (is_extra i extra || contains i (p ∷ is))
unfolding contains
recorded-cons extra p i rec is h = elim (Bool-cases (is_extra i extra)) [
  | inl mine ↦ rw (h, mine) (ground arith)
  | inr other ↦ rw (h, other)
]

pub or-false : (a b : Bool) → (a || b) ≡ true → a ≡ false → b ≡ true
or-false a b h k = ground arith

pub or-false-right : (a b : Bool) → (a || b) ≡ false → b ≡ false
or-false-right a b h = ground arith

pub add_string-Adds :
    (extra : Option ℕ) (s : StaticString) (d : Deps)
    → is_extra s.ptr extra ≡ false
    → IsRecorded extra d
    → Adds extra s.ptr d (add_string s d)
unfolding add_string
add_string-Adds extra s d other v = elim (Bool-cases (contains s.ptr d.recorded_deps)) [
  | inl known ↦
      rw (add_string, known)
        (record {
          valid = v;
          grows = λ j h. h;
          added = or-false (is_extra s.ptr extra) _ (sym (v.recorded s.ptr) ∙ known) other;
        })
  | inr unknown ↦
      rw (add_string, unknown)
        (record {
          valid = record {
            recorded = λ i. recorded-cons extra s.ptr i d.recorded_deps (ids d.deps) (v.recorded i);
            distinct = (
              or-false-right (is_extra s.ptr extra) _ (sym (v.recorded s.ptr) ∙ unknown),
              v.distinct,
            );
            apart = IsApart-cons extra s.ptr (ids d.deps) other v.apart;
            ordered = (tt, v.ordered);
          };
          grows = λ j h. contains-cons j s.ptr (ids d.deps) h;
          added = contains_self s.ptr (ids d.deps);
        })
]

-- The address of a metadata is that of none of its strings.
abbrev pub IsStatic : ℕ → LogMetadata → Type 0
IsStatic log_ptr m =
    ((m.fmt_str.ptr == log_ptr) ≡ false)
    × ((m.target.ptr == log_ptr) ≡ false)
    × ((m.module_path.ptr == log_ptr) ≡ false)
    × ((m.file.ptr == log_ptr) ≡ false)

add_strings-IsRecorded :
    (log_ptr : ℕ) (m : LogMetadata) (d : Deps)
    → IsStatic log_ptr m
    → IsRecorded (some log_ptr) d
    → IsRecorded (some log_ptr) (add_strings m d)
      × ((j : ℕ) → contains j (ids d.deps) ≡ true → contains j (ids (add_strings m d).deps) ≡ true)
      × Refers (log_metadata_record (record_of log_ptr m)) (add_strings m d).deps
unfolding add_strings
add_strings-IsRecorded log_ptr m d (a, b, c, e) v =
    let s1 = add_string-Adds (some log_ptr) m.fmt_str d a v in
    let s2 = add_string-Adds (some log_ptr) m.target _ b s1.valid in
    let s3 = add_string-Adds (some log_ptr) m.module_path _ c s2.valid in
    let s4 = add_string-Adds (some log_ptr) m.file _ e s3.valid in
    (
      s4.valid,
      (λ j h. s4.grows j (s3.grows j (s2.grows j (s1.grows j h)))),
      (
        s4.grows _ (s3.grows _ (s2.grows _ s1.added)),
        s4.grows _ (s3.grows _ s2.added),
        s4.grows _ s3.added,
        s4.added,
      ),
    )

start-IsRecorded :
    (log_ptr : ℕ) (d : Deps)
    → contains log_ptr d.recorded_deps ≡ false
    → IsRecorded none d
    → IsRecorded (some log_ptr) (record d { recorded_deps = log_ptr ∷ d.recorded_deps })
unfolding contains
start-IsRecorded log_ptr d unknown v = record {
  recorded = λ i. let e = v.recorded i in rw e;
  distinct = v.distinct;
  apart = sym (v.recorded log_ptr) ∙ unknown;
  ordered = v.ordered;
}

pushed-recorded :
    (log_ptr : ℕ) (m : LogMetadata) (d : Deps)
    → IsRecorded (some log_ptr) d
    → (i : ℕ) → contains i d.recorded_deps ≡ contains i (log_ptr ∷ ids d.deps)
unfolding contains
pushed-recorded log_ptr m d v i = v.recorded i

pub record-Adds :
    (log_ptr : ℕ) (m : LogMetadata) (d : Deps)
    → IsStatic log_ptr m
    → IsRecorded none d
    → Adds none log_ptr d (record_log_event_dependencies log_ptr m d)
unfolding record_log_event_dependencies
record-Adds log_ptr m d static v = elim (Bool-cases (contains log_ptr d.recorded_deps)) [
  | inl known ↦
      rw (record_log_event_dependencies, known)
        (record { valid = v; grows = λ j h. h; added = sym (v.recorded log_ptr) ∙ known })
  | inr unknown ↦
      let (w, grows, refers) =
        add_strings-IsRecorded log_ptr m _ static (start-IsRecorded log_ptr d unknown v) in
      rw (record_log_event_dependencies, unknown)
        (record {
          valid = record {
            recorded = pushed-recorded log_ptr m _ w;
            distinct = (w.apart, w.distinct);
            apart = tt;
            ordered = (refers, w.ordered);
          };
          grows = λ j h. contains-cons j log_ptr _ (grows j h);
          added = contains_self log_ptr _;
        })
]
