-- ===== src/Analytics/Scope.antt =====
-- rust/analytics/src/scope.rs: descriptions of scopes, and the map from their hashes. The hash
-- function of the xxhash crate is an argument.
use micromegas.Prelude.{ℕ, List, HashMap}
use micromegas.Transit.Bytes.{le_bytes}

pub record ScopeDesc : Type 0 where
  pub name : List ℕ
  pub filename : List ℕ
  pub target : List ℕ
  pub line : ℕ
  pub hash : ℕ

abbrev pub ScopeHashMap : Type 0
ScopeHashMap = HashMap ScopeDesc

module _ (xxh32 : List ℕ → ℕ → ℕ) where
  unfoldable pub compute_scope_hash : List ℕ → List ℕ → List ℕ → ℕ → ℕ
  compute_scope_hash name filename target line =
      let hash_name = xxh32 name 0 in
      let hash_with_filename = xxh32 filename hash_name in
      let hash_with_target = xxh32 target hash_with_filename in
      xxh32 (le_bytes 4 line) hash_with_target

  -- `ScopeDesc::new`
  unfoldable pub new_scope : List ℕ → List ℕ → List ℕ → ℕ → ScopeDesc
  new_scope name filename target line = record {
    name = name;
    filename = filename;
    target = target;
    line = line;
    hash = compute_scope_hash name filename target line;
  }
