-- ===== src/Tracing/Recording/Laws.antt =====
-- What recording the dependencies of metrics and of spans keeps (rust/tracing/src/metrics/block.rs,
-- rust/tracing/src/spans/block.rs).
use micromegas.Prelude.{
  ℕ, ◌≡◌, refl, sym, ◌∙◌, true, false, ◌||◌, List, [], ◌∷◌, map, Option, none, some, All,
  Bool-cases, inl, inr,
}
use micromegas.Tracing.Dependencies.{StaticString, contains}
use micromegas.Tracing.Dependencies.Recorded.{
  IsDistinct, is_extra, IsApart, contains-cons, contains_self, IsApart-cons, recorded-cons,
  or-false, or-false-right,
}
use micromegas.Tracing.Recording.{
  Dep, text, described, Recording, nothing_recorded, add_text, add_texts, describe, extract_all,
}

abbrev pub ptr_of : StaticString → ℕ
ptr_of s = s.ptr

-- The address of a record, and the addresses of its texts.
module _ {R : Type 0} (id_of : R → ℕ) (texts_of : R → List ℕ) where
  abbrev pub dep_id : Dep R → ℕ
  dep_id (text s) = s.ptr
  dep_id (described r) = id_of r

  abbrev pub dep_ids : List (Dep R) → List ℕ
  dep_ids [] = []
  dep_ids (v ∷ vs) = dep_id v ∷ dep_ids vs

  -- An address is among those of the dependencies.
  abbrev pub IsAmong : List (Dep R) → ℕ → Type 0
  IsAmong vs i = contains i (dep_ids vs) ≡ true

  -- The texts of every record are pushed before it.
  abbrev pub HasTextsFirst : List (Dep R) → Type 0
  HasTextsFirst [] = Unit {0}
  HasTextsFirst (text s ∷ before) = HasTextsFirst before
  HasTextsFirst (described r ∷ before) = All (IsAmong before) (texts_of r) × HasTextsFirst before

  -- The set is that of the dependencies and, in the middle of a record, of its address.
  pub record IsValid (extra : Option ℕ) (d : Recording R) : Type 0 where
    pub recorded :
        (i : ℕ) → contains i d.recorded_deps ≡ (is_extra i extra || contains i (dep_ids d.deps))
    pub distinct : IsDistinct (dep_ids d.deps)
    pub apart : IsApart extra (dep_ids d.deps)
    pub ordered : HasTextsFirst d.deps

  abbrev pub Grows : Recording R → Recording R → Type 0
  Grows d d' = (j : ℕ) → IsAmong d.deps j → IsAmong d'.deps j

  pub record Adds (extra : Option ℕ) (i : ℕ) (d d' : Recording R) : Type 0 where
    pub valid : IsValid extra d'
    pub grows : Grows d d'
    pub added : IsAmong d'.deps i

  pub add_text-Adds :
      (extra : Option ℕ) (s : StaticString) (d : Recording R)
      → is_extra s.ptr extra ≡ false
      → IsValid extra d
      → Adds extra s.ptr d (add_text s d)
  unfolding add_text
  add_text-Adds extra s d other v = elim (Bool-cases (contains s.ptr d.recorded_deps)) [
    | inl known ↦
        rw (add_text, known)
          (record {
            valid = v;
            grows = λ j h. h;
            added = or-false (is_extra s.ptr extra) _ (sym (v.recorded s.ptr) ∙ known) other;
          })
    | inr unknown ↦
        rw (add_text, unknown)
          (record {
            valid = record {
              recorded =
                  λ i. recorded-cons extra s.ptr i d.recorded_deps (dep_ids d.deps) (v.recorded i);
              distinct = (
                or-false-right (is_extra s.ptr extra) _ (sym (v.recorded s.ptr) ∙ unknown),
                v.distinct,
              );
              apart = IsApart-cons extra s.ptr (dep_ids d.deps) other v.apart;
              ordered = v.ordered;
            };
            grows = λ j h. contains-cons j s.ptr (dep_ids d.deps) h;
            added = contains_self s.ptr (dep_ids d.deps);
          })
  ]

  add_texts-IsValid :
      (extra : Option ℕ) (ss : List StaticString) (d : Recording R)
      → All (λ s. is_extra (ptr_of s) extra ≡ false) ss
      → IsValid extra d
      → IsValid extra (add_texts ss d)
        × Grows d (add_texts ss d)
        × All (IsAmong (add_texts ss d).deps) (map ptr_of ss)
  unfolding add_texts
  add_texts-IsValid extra [] d others v = (v, (λ j h. h), tt)
  add_texts-IsValid extra (s ∷ ss) d (other, others) v =
      let first = add_text-Adds extra s d other v in
      let (valid, grows, found) = add_texts-IsValid extra ss (add_text s d) others first.valid in
      (valid, (λ j h. grows j (first.grows j h)), (grows _ first.added, found))

  start-IsValid :
      (ptr : ℕ) (d : Recording R)
      → contains ptr d.recorded_deps ≡ false
      → IsValid none d
      → IsValid (some ptr) (record d { recorded_deps = ptr ∷ d.recorded_deps })
  unfolding contains
  start-IsValid ptr d unknown v = record {
    recorded = λ i. let e = v.recorded i in rw e;
    distinct = v.distinct;
    apart = sym (v.recorded ptr) ∙ unknown;
    ordered = v.ordered;
  }

  pushed-recorded :
      (ptr : ℕ) (d : Recording R)
      → IsValid (some ptr) d
      → (i : ℕ) → contains i d.recorded_deps ≡ contains i (ptr ∷ dep_ids d.deps)
  unfolding contains
  pushed-recorded ptr d v i = v.recorded i

  pub describe-Adds :
      (texts : List StaticString) (r : R) (d : Recording R)
      → All (λ s. is_extra (ptr_of s) (some (id_of r)) ≡ false) texts
      → texts_of r ≡ map ptr_of texts
      → IsValid none d
      → Adds none (id_of r) d (describe (id_of r) texts r d)
  unfolding describe
  describe-Adds texts r d others e v = elim (Bool-cases (contains (id_of r) d.recorded_deps)) [
    | inl known ↦
        rw (describe, known)
          (record { valid = v; grows = λ j h. h; added = sym (v.recorded (id_of r)) ∙ known })
    | inr unknown ↦
        let (w, grows, found) =
          add_texts-IsValid (some (id_of r)) texts _ others (start-IsValid (id_of r) d unknown v) in
        rw (describe, unknown)
          (record {
            valid = record {
              recorded = pushed-recorded (id_of r) _ w;
              distinct = (w.apart, w.distinct);
              apart = tt;
              ordered = (rw e found, w.ordered);
            };
            grows = λ j h. contains-cons j (id_of r) _ (grows j h);
            added = contains_self (id_of r) _;
          })
  ]

  nothing-IsValid : IsValid none nothing_recorded
  nothing-IsValid = record { recorded = λ i. refl; distinct = tt; apart = tt; ordered = tt }

  -- Extracting from events, where `targets_of` gives the addresses that an event refers to.
  module _ {E : Type 0} (extract_event : E → Recording R → Recording R) (targets_of : E → List ℕ)
      (IsStatic : E → Type 0)
      (adds : (e : E) (d : Recording R)
        → IsStatic e
        → IsValid none d
        → IsValid none (extract_event e d)
          × Grows d (extract_event e d)
          × All (IsAmong (extract_event e d).deps) (targets_of e)) where
    IsAmong-Grows :
        (d d' : Recording R) (is : List ℕ)
        → Grows d d'
        → All (IsAmong d.deps) is
        → All (IsAmong d'.deps) is
    IsAmong-Grows d d' [] grows h = tt
    IsAmong-Grows d d' (i ∷ is) grows (h, hs) = (grows i h, IsAmong-Grows d d' is grows hs)

    abbrev IsCovered : Recording R → E → Type 0
    IsCovered d e = All (IsAmong d.deps) (targets_of e)

    extract_all-IsValid :
        (es : List E) (d : Recording R)
        → All IsStatic es
        → IsValid none d
        → IsValid none (extract_all extract_event es d)
          × Grows d (extract_all extract_event es d)
          × All (IsCovered (extract_all extract_event es d)) es
    unfolding extract_all
    extract_all-IsValid [] d static v = (v, (λ j h. h), tt)
    extract_all-IsValid (e ∷ es) d (static, statics) v =
        let (v1, grows1, covered) = adds e d static v in
        let (v2, grows2, all) = extract_all-IsValid es (extract_event e d) statics v1 in
        (
          v2,
          (λ j h. grows2 j (grows1 j h)),
          (
            IsAmong-Grows (extract_event e d) (extract_all extract_event es (extract_event e d))
                (targets_of e) grows2 covered,
            all,
          ),
        )

    -- What the reader of a block relies on: no address twice, texts in front of their records, and
    -- every address that an event refers to.
    pub extract_all-nothing :
        (es : List E)
        → All IsStatic es
        → IsDistinct (dep_ids (extract_all extract_event es nothing_recorded).deps)
          × HasTextsFirst (extract_all extract_event es nothing_recorded).deps
          × All
              (λ e.
                All (IsAmong (extract_all extract_event es nothing_recorded).deps) (targets_of e))
              es
    extract_all-nothing es static =
        let (v, grows, all) = extract_all-IsValid es nothing_recorded static nothing-IsValid in
        (v.distinct, v.ordered, all)
