-- ===== src/Analytics/QuerySpans.antt =====
-- rust/analytics/src/query_spans.rs: the rows of all spans of a stream. The blocks come from the
-- database in the order of their begin; each run of blocks that follow one another becomes one
-- call tree. What a block's payload holds is an argument.
pub mod Gaps
use micromegas.Prelude.{
  ℕ, zero, suc, ℤ, pos, add_i64, sub_i64, ltb_ℤ, String, Bool, true, false, not, ◌==◌, ◌&&◌, List,
  [], ◌∷◌, ◌++◌, Option, none, some, Result, ok, err, panic, ◌>>=◌, if◌then◌else◌, length, map,
  pos_part, neg_part,
}
use micromegas.Analytics.Columns.{HasKey}
use micromegas.Analytics.Time.{F64, ConvertTicks, ticks_to_nanoseconds}
use micromegas.Analytics.ThreadBlock.{ThreadEvent}
use micromegas.Analytics.CallTree.{make_call_tree}
use micromegas.Analytics.SpanTable
use micromegas.Analytics.SpanTable.{Rows}

-- The fields of `BlockMetadata` that the query reads.
pub record BlockMetadata : Type 0 where
  pub block_id : String
  pub begin_ticks : ℤ
  pub end_ticks : ℤ

abbrev pub eq_ℤ : ℤ → ℤ → Bool
eq_ℤ (pos a) (pos b) = a == b
eq_ℤ (ℤ.negsuc a) (ℤ.negsuc b) = a == b
eq_ℤ _ _ = false

-- `max` and `min` of `std::cmp` on `i64`
abbrev max_ℤ : ℤ → ℤ → ℤ
max_ℤ a b = if ltb_ℤ b a then a else b

abbrev min_ℤ : ℤ → ℤ → ℤ
min_ℤ a b = if ltb_ℤ b a then b else a

abbrev pub last_of : BlockMetadata → List BlockMetadata → BlockMetadata
last_of block [] = block
last_of block (b ∷ bs) = last_of b bs

-- What a query is given: its range in ticks from the start of the process, its limit, the process's
-- clock and the stream's thread and payloads.
pub record Query (f : F64) : Type 0 where
  pub relative_begin_ticks : ℤ
  pub relative_end_ticks : ℤ
  pub limit : ℤ
  pub start_ticks : ℤ
  pub convert_ticks : ConvertTicks f
  pub thread_name : List ℕ
  pub payload : String → List ThreadEvent

module _ (f : F64) (xxh32 : List ℕ → ℕ → ℕ) (has_key : HasKey) (q : Query f) where
  -- The rows with the trees of `blocks` behind them, and whether there is space left.
  unfoldable pub append_call_tree : List BlockMetadata → Rows → Result (Rows × Bool)
  append_call_tree [] rows = err panic
  append_call_tree (block ∷ blocks) rows = do
    let begin_call_tree_rel_ticks = max_ℤ q.relative_begin_ticks block.begin_ticks
    let end_call_tree_rel_ticks = min_ℤ q.relative_end_ticks (last_of block blocks).end_ticks
    tree ←
        make_call_tree f xxh32
          (map (λ (b : BlockMetadata). (b.block_id, q.payload b.block_id)) (block ∷ blocks))
          (ticks_to_nanoseconds f q.convert_ticks (add_i64 begin_call_tree_rel_ticks q.start_ticks))
          (ticks_to_nanoseconds f q.convert_ticks (add_i64 end_call_tree_rel_ticks q.start_ticks))
          (sub_i64 q.limit (pos (length rows))) q.convert_ticks q.thread_name
    rows' ← SpanTable.append_call_tree has_key tree rows
    ok (rows', ltb_ℤ (pos (length rows')) q.limit)

  -- `block.begin_ticks == last_end.unwrap_or(block.begin_ticks)`
  abbrev pub follows : Option ℤ → BlockMetadata → Bool
  follows none block = true
  follows (some last_end) block = eq_ℤ block.begin_ticks last_end

  flush_last : List BlockMetadata → Rows → Result Rows
  flush_last [] rows = ok rows
  flush_last (b ∷ bs) rows = do (rows', continue) ← append_call_tree (b ∷ bs) rows; ok rows'

  -- The loop over the blocks, and what comes behind it.
  unfoldable pub query_blocks :
      List BlockMetadata → Option ℤ → List BlockMetadata → Rows → Result Rows
  unfolding flush_last
  query_blocks [] last_end blocks_to_process rows = flush_last blocks_to_process rows
  query_blocks (block ∷ blocks) last_end blocks_to_process rows =
      let pushed =
        query_blocks blocks (some block.end_ticks) (blocks_to_process ++ block ∷ []) rows in
      let flushed = (do
        (rows', continue) ← append_call_tree blocks_to_process rows
        let rest = query_blocks blocks none [] rows'
        if continue then rest else ok rows') in
      if follows last_end block then pushed else flushed

  -- `query_spans` behind the fetch of the blocks
  unfoldable pub query_spans : List BlockMetadata → Result Rows
  unfolding query_blocks
  query_spans blocks = query_blocks blocks none [] []
