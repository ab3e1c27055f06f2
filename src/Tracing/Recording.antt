-- ===== src/Tracing/Recording.antt =====
-- What the extraction of dependencies from metrics (rust/tracing/src/metrics/block.rs) and from spans
-- (rust/tracing/src/spans/block.rs) shares: a set of addresses and a queue of dependencies, with the
-- one that was pushed last in front. A record of type `R` describes a static value.
pub mod Laws
use micromegas.Prelude.{ℕ, Bool, List, [], ◌∷◌, if◌then◌else◌}
use micromegas.Tracing.Dependencies.{StaticString, contains}

pub data Dep (R : Type 0) : Type 0 where
  text : StaticString → Dep R
  described : R → Dep R

pub record Recording (R : Type 0) : Type 0 where
  pub recorded_deps : List ℕ
  pub deps : List (Dep R)

abbrev pub nothing_recorded : {R : Type 0} → Recording R
nothing_recorded = record { recorded_deps = []; deps = [] }

module _ {R : Type 0} where
  -- `if recorded_deps.insert(s.ptr as u64) { deps.push(s); }`
  unfoldable pub add_text : StaticString → Recording R → Recording R
  add_text s d =
      if contains s.ptr d.recorded_deps
      then d
      else record { recorded_deps = s.ptr ∷ d.recorded_deps; deps = text s ∷ d.deps }

  unfoldable pub add_texts : List StaticString → Recording R → Recording R
  add_texts [] d = d
  add_texts (s ∷ ss) d = add_texts ss (add_text s d)

  -- A static value that is met for the first time: its texts in their order, then its record.
  unfoldable pub describe : ℕ → List StaticString → R → Recording R → Recording R
  describe ptr texts r d =
      let with_texts = add_texts texts (record d { recorded_deps = ptr ∷ d.recorded_deps }) in
      if contains ptr d.recorded_deps
      then d
      else record with_texts { deps = described r ∷ with_texts.deps }

  unfoldable pub extract_all :
      {E : Type 0} → (E → Recording R → Recording R) → List E → Recording R → Recording R
  extract_all extract_event [] d = d
  extract_all extract_event (e ∷ es) d = extract_all extract_event es (extract_event e d)
