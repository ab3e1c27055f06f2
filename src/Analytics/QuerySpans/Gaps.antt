-- ===== src/Analytics/QuerySpans/Gaps.antt =====
-- Which blocks rust/analytics/src/query_spans.rs turns into rows.
use micromegas.Prelude.{
  ℕ, ℤ, pos, ◌≡◌, ap, ◌∙◌, true, false, List, [], ◌∷◌, ◌++◌, none, some, ok, ◌>>=◌, if◌then◌else◌,
  append-nil, append_assoc, arith,
}
use micromegas.Analytics.Columns.{HasKey}
use micromegas.Analytics.Time.{F64}
use micromegas.Analytics.SpanTable.{Rows}
use micromegas.Analytics.QuerySpans.{
  BlockMetadata, Query, eq_ℤ, last_of, append_call_tree, query_blocks, query_spans,
}

-- Each block begins where the one before it ends.
abbrev pub IsContiguous : BlockMetadata → List BlockMetadata → Type 0
IsContiguous block [] = Unit {0}
IsContiguous block (b ∷ bs) = (b.begin_ticks ≡ block.end_ticks) × IsContiguous b bs

eq_ℤ_refl : (a : ℤ) → eq_ℤ a a ≡ true
eq_ℤ_refl (pos n) = ground arith
eq_ℤ_refl (ℤ.negsuc n) = ground arith

module _ (f : F64) (xxh32 : List ℕ → ℕ → ℕ) (has_key : HasKey) (q : Query f) where
  query_blocks-run :
      (run : List BlockMetadata) (block : BlockMetadata) (blocks before : List BlockMetadata)
      (rows : Rows)
      → IsContiguous block run
      → query_blocks f xxh32 has_key q (run ++ blocks) (some block.end_ticks) before rows
        ≡ query_blocks f xxh32 has_key q blocks
            (some (last_of block run).end_ticks)
            (before ++ run)
            rows
  unfolding query_blocks
  query_blocks-run [] block blocks before rows c = rw append-nil
  query_blocks-run (b ∷ run) block blocks before rows (e, c) =
      let next : eq_ℤ b.begin_ticks block.end_ticks ≡ true = rw e (eq_ℤ_refl block.end_ticks) in
      rw next (
        query_blocks-run run b blocks (before ++ b ∷ []) rows c
        ∙ ap (λ l. query_blocks f xxh32 has_key q blocks (some (last_of b run).end_ticks) l rows)
            (append_assoc before (b ∷ []) run))

  -- The block behind a gap is lost: where a block does not begin at the end of the run before it, the
  -- call tree of the run becomes rows, and the query then goes on behind that block, without it.
  pub query_spans_gap :
      (block gap : BlockMetadata) (run blocks : List BlockMetadata)
      → IsContiguous block run
      → eq_ℤ gap.begin_ticks (last_of block run).end_ticks ≡ false
      → query_spans f xxh32 has_key q (block ∷ (run ++ gap ∷ blocks)) ≡ (do
        (rows, continue) ← append_call_tree f xxh32 has_key q (block ∷ run) []
        if continue then query_blocks f xxh32 has_key q blocks none [] rows else ok rows)
  unfolding query_spans
  query_spans_gap block gap run blocks c apart =
      query_blocks-run run block (gap ∷ blocks) (block ∷ []) [] c ∙ rw apart
