-- ===== src/Tracing/Dependencies/Resolved.antt =====
-- The dependencies of a block of log events, from `extract` (rust/tracing/src/logs/block.rs) over the
-- bytes of their queue to the map that `read_dependencies` (rust/transit/src/parser.rs) returns.
use micromegas.Prelude.{
  ℕ, suc, ◌≡◌, refl, ◌∙◌, true, false, List, [], ◌∷◌, ◌++◌, Result, ok, err, ◌>>=◌, ◌==◌, All,
  HashMap, lookup, insert, is_some, Bool-cases, inl, inr, arith, All-append,
}
use micromegas.Transit.Value.{UserDefinedType, Value}
use micromegas.Transit.Queue.{Queue, new, push_all}
use micromegas.Transit.Parser.Dependencies.{insert_new, read_dependencies}
use micromegas.Transit.Parser.Dependencies.Encoded.{load_all, read_dependencies-push_all}
use micromegas.Tracing.LogEvents.{
  Layout, LogMsgQueueAny, log_static_str_event, log_string_event, log_static_str_interop_event,
  log_string_interop_event,
}
use micromegas.Tracing.Dependencies.{
  StaticString, LogMetadata, LogMetadataRecord, LogDep, static_string, log_metadata_record,
  contains, extract,
}
use micromegas.Tracing.Dependencies.Recorded.{id_of, ids, IsDistinct, IsOrdered}
use micromegas.Tracing.Dependencies.Laws.{HasStatic, IsCovered, extract-IsDistinct}
use micromegas.Tracing.Dependencies.Queued.{log_deps_queue}
use micromegas.Tracing.Dependencies.Parsed.{
  Offsets, value_of_dep, load, DepFits, dep-Fits, dep_udts, dep-Loads,
}

-- `extract` keeps what was pushed last in front; this is the order of the pushes.
unfoldable pub in_order : List LogDep → List LogDep
in_order [] = []
in_order (v ∷ before) = in_order before ++ v ∷ []

All-in_order : (P : LogDep → Type 0) (vs : List LogDep) → All P vs → All P (in_order vs)
unfolding in_order
All-in_order P [] h = tt
All-in_order P (v ∷ before) (h, hs) =
    All-append P (in_order before) _ (All-in_order P before hs) (h, tt)

==_comm : (a b : ℕ) → (a == b) ≡ (b == a)
==_comm a b = ground arith

All-map :
    {A : Type 0} (P Q : A → Type 0) → ((a : A) → P a → Q a) → (xs : List A) → All P xs → All Q xs
All-map P Q f [] h = tt
All-map P Q f (x ∷ xs) (h, hs) = (f x h, All-map P Q f xs hs)

module _ {A : Type 0} where
  >>=-ok : (r : Result A) → (r >>= λ a. ok a) ≡ r
  >>=-ok (err failure) = refl
  >>=-ok (ok a) = refl

  >>=-split :
      (r : Result A) (whole first second : A → Result A)
      → ((a : A) → whole a ≡ (first a >>= second))
      → (r >>= whole) ≡ ((r >>= first) >>= second)
  >>=-split (err failure) whole first second h = refl
  >>=-split (ok a) whole first second h = h a

module _ (text_at : StaticString → List ℕ) (metadata : Layout LogMetadataRecord)
    (at : Offsets) where
  -- The map that the dependencies describe: every one under its address, where the texts of a metadata
  -- are those in front of it.
  unfoldable pub hash_of : List LogDep → HashMap Value
  hash_of [] = []
  hash_of (v ∷ before) =
      insert (id_of v) (value_of_dep text_at metadata at v (hash_of before)) (hash_of before)

  lookup-hash_of :
      (vs : List LogDep) (j : ℕ) → is_some (lookup j (hash_of vs)) ≡ contains j (ids vs)
  unfolding hash_of lookup insert contains
  lookup-hash_of [] j = refl
  lookup-hash_of (v ∷ before) j = elim (Bool-cases (id_of v == j)) [
    | inl e ↦ rw (==_comm j (id_of v), e) refl
    | inr e ↦ rw (==_comm j (id_of v), e) (lookup-hash_of before j)
  ]

  load-insert :
      (v : LogDep) (hash : HashMap Value)
      → is_some (lookup (id_of v) hash) ≡ false
      → load text_at metadata at v hash
        ≡ ok (insert (id_of v) (value_of_dep text_at metadata at v hash) hash)
  unfolding insert_new
  load-insert (static_string s) hash h = rw h refl
  load-insert (log_metadata_record r) hash h = rw h refl

  load_all-nil : load_all (load text_at metadata at) [] [] ≡ ok []
  unfolding load_all
  load_all-nil = refl

  load_all-append :
      (vs : List LogDep) (v : LogDep) (hash : HashMap Value)
      → load_all (load text_at metadata at) (vs ++ v ∷ []) hash
        ≡ (load_all (load text_at metadata at) vs hash >>= load text_at metadata at v)
  unfolding load_all
  load_all-append [] v hash = >>=-ok (load text_at metadata at v hash)
  load_all-append (u ∷ us) v hash =
      >>=-split (load text_at metadata at u hash) _ _ _ λ hash'. load_all-append us v hash'

  load_all-in_order :
      (vs : List LogDep)
      → IsDistinct (ids vs)
      → load_all (load text_at metadata at) (in_order vs) [] ≡ ok (hash_of vs)
  unfolding in_order hash_of
  load_all-in_order [] h = load_all-nil
  load_all-in_order (v ∷ before) (new_id, h) =
      load_all-append (in_order before) v []
      ∙ rw (load_all-in_order before h)
          (load-insert v (hash_of before) (lookup-hash_of before (id_of v) ∙ new_id))

  abbrev IsFound : HashMap Value → ℕ → Type 0
  IsFound hash id = is_some (lookup id hash) ≡ true

  -- The map has what an event refers to.
  abbrev pub IsResolved : HashMap Value → LogMsgQueueAny → Type 0
  IsResolved hash (log_static_str_event e) = IsFound hash e.desc
  IsResolved hash (log_string_event e) = IsFound hash e.desc
  IsResolved hash (log_static_str_interop_event e) =
      IsFound hash e.target.ptr × IsFound hash e.msg.ptr
  IsResolved hash (log_string_interop_event e) = IsFound hash e.target.ptr

  -- The texts of every metadata are in the map when its own turn comes.
  abbrev pub HasTexts : List LogDep → Type 0
  HasTexts [] = Unit
  HasTexts (static_string s ∷ before) = HasTexts before
  HasTexts (log_metadata_record r ∷ before) =
      (IsFound (hash_of before) r.fmt_str
        × (IsFound (hash_of before) r.target
            × (IsFound (hash_of before) r.module_path × IsFound (hash_of before) r.file)))
      × HasTexts before

  IsOrdered-HasTexts : (vs : List LogDep) → IsOrdered vs → HasTexts vs
  IsOrdered-HasTexts [] h = tt
  IsOrdered-HasTexts (static_string s ∷ before) (h, hs) = IsOrdered-HasTexts before hs
  IsOrdered-HasTexts (log_metadata_record r ∷ before) ((f, t, m, l), hs) = (
    (
      lookup-hash_of before r.fmt_str ∙ f,
      (
        lookup-hash_of before r.target ∙ t,
        (lookup-hash_of before r.module_path ∙ m, lookup-hash_of before r.file ∙ l),
      ),
    ),
    IsOrdered-HasTexts before hs,
  )

  covered-IsResolved :
      (vs : List LogDep) (e : LogMsgQueueAny) → IsCovered vs e → IsResolved (hash_of vs) e
  covered-IsResolved vs (log_static_str_event e) h = lookup-hash_of vs e.desc ∙ h
  covered-IsResolved vs (log_string_event e) h = lookup-hash_of vs e.desc ∙ h
  covered-IsResolved vs (log_static_str_interop_event e) (h, k) =
      (lookup-hash_of vs e.target.ptr ∙ h, lookup-hash_of vs e.msg.ptr ∙ k)
  covered-IsResolved vs (log_string_interop_event e) h = lookup-hash_of vs e.target.ptr ∙ h

  module _ (from_utf16_lossy : List ℕ → List ℕ) (depth : ℕ) (rest : List UserDefinedType)
      (sized : (metadata.size_of == 0) ≡ false) (metadata_at : ℕ → LogMetadata) where
    -- For events whose metadata are static values, and dependencies that are in the ranges of their
    -- machine types: the dependencies that `extract` finds are pushed to their queue and read back
    -- without a failure, so the assertion that no address comes twice holds. The map that is read
    -- holds each under its address; every event finds in it what it refers to, and every metadata
    -- found its four texts.
    pub read_dependencies-extract :
        (events : List LogMsgQueueAny)
        → All (HasStatic metadata_at) events
        → All (DepFits text_at metadata at) (extract metadata_at events)
        → (q : Queue) × (push_all
              (log_deps_queue text_at metadata)
              (in_order (extract metadata_at events))
              new
            ≡ ok q)
          × (read_dependencies from_utf16_lossy
                (suc depth)
                (dep_udts metadata.size_of at rest)
                q.buffer
              ≡ ok (hash_of (extract metadata_at events)))
          × All (IsResolved (hash_of (extract metadata_at events))) events
          × HasTexts (extract metadata_at events)
    read_dependencies-extract events static fits =
        let deps = extract metadata_at events in
        let (distinct, ordered, covered) = extract-IsDistinct metadata_at events static in
        let (q, pushed, read_) =
          read_dependencies-push_all from_utf16_lossy (suc depth) _
            (log_deps_queue text_at metadata) (load text_at metadata at) (in_order deps)
            (All-in_order _ deps (All-map _ _ (dep-Fits text_at metadata at) deps fits))
            (All-in_order _ deps (
              All-map _ _ (dep-Loads text_at metadata at from_utf16_lossy depth rest sized) deps
                fits)) in
        (
          q,
          pushed,
          read_ ∙ load_all-in_order deps distinct,
          All-map _ _ (covered-IsResolved deps) events covered,
          IsOrdered-HasTexts deps ordered,
        )
