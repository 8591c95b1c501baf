-- ===== src/Ingest.antt =====
-- The autocommit path of `run_ingest_mutations` in src/statement/ingest.rs: the rows of the bound
-- batches, cut into chunks by `IngestChunkBudget`. What ships a chunk (`write_mutation_range` or
-- `batch_write_chunk`) is a parameter, on an abstract world.
pub mod Plan
pub mod Chunks
pub mod Bisect
pub mod Range
use adbc_spanner.Common.{
  ℕ, zero, suc, ◌+◌, ◌/◌, Bool, not, ◌&&◌, ◌||◌, List, [], ◌∷◌, ◌==◌, leb, if◌then◌else◌, Result,
  ok, err, Done,
}

-- `INGEST_CHUNK_MUTATION_LIMIT`, `INGEST_CHUNK_BYTE_BUDGET`, `u64::MAX`
abbrev pub ingest_chunk_mutation_limit : ℕ
ingest_chunk_mutation_limit = 20000

abbrev pub ingest_chunk_byte_budget : ℕ
ingest_chunk_byte_budget = 4194304

abbrev pub u64_max : ℕ
u64_max = 18446744073709551615

abbrev pub saturated : ℕ → ℕ
saturated n = if leb n u64_max then n else u64_max

abbrev pub saturating_add : ℕ → ℕ → ℕ
saturating_add a b = saturated (a + b)

-- `IngestChunkBudget`
pub record Budget : Type 0 where
  pub rows : ℕ
  pub mutations : ℕ
  pub bytes : ℕ

abbrev pub default_budget : Budget
default_budget = record { rows = 0; mutations = 0; bytes = 0 }

unfoldable pub fits : Budget → ℕ → ℕ → Bool
fits b columns row_bytes =
    b.rows == 0
    || leb (saturating_add b.mutations columns) ingest_chunk_mutation_limit
      && leb (saturating_add b.bytes row_bytes) ingest_chunk_byte_budget

unfoldable pub add : Budget → ℕ → ℕ → Budget
add b columns row_bytes = record {
  rows = b.rows + 1;
  mutations = saturating_add b.mutations columns;
  bytes = saturating_add b.bytes row_bytes;
}

-- What the loop reads of a `RecordBatch`.
pub record Batch : Type 0 where
  pub columns : ℕ
  pub memory_size : ℕ
  pub num_rows : ℕ

-- `get_array_memory_size() / num_rows().max(1)`
abbrev pub row_bytes_of : Batch → ℕ
row_bytes_of b = b.memory_size / (if b.num_rows == 0 then 1 else b.num_rows)

-- The variables of the loop.
pub record Cut (W : Type 0) : Type 0 where
  pub world : W
  pub total : ℕ
  pub budget : Budget
  pub chunk_start : ℕ
  pub row_index : ℕ

module _ {W : Type 0} where
  abbrev pub started : Cut W → W × Result ℕ → Cut W × Result Done
  started c (w, ok n) = (
    record c { world = w; total = c.total + n; budget = default_budget; chunk_start = c.row_index },
    ok tt,
  )
  started c (w, err e) = (record c { world = w }, err e)

  abbrev pub counted : ℕ → ℕ → Cut W → Cut W
  counted columns row_bytes c = record c {
    budget = add c.budget columns row_bytes;
    row_index = c.row_index + 1;
  }

  abbrev pub then_loop : Cut W × Result Done → (Cut W → Cut W × Result Done) → Cut W × Result Done
  then_loop (c, ok _) k = k c
  then_loop (c, err e) k = (c, err e)

  abbrev pub totalled : ℕ → W × Result ℕ → W × Result ℕ
  totalled total (w, ok n) = (w, ok (total + n))
  totalled total (w, err e) = (w, err e)

module _ {W : Type 0} (ship : W → ℕ → ℕ → ℕ → W × Result ℕ) where
  -- `commit_ingest_range`
  unfoldable pub commit_ingest_range : W → ℕ → ℕ → ℕ → W × Result ℕ
  commit_ingest_range w start end prior_total =
      if leb end start then (w, ok 0) else ship w start end prior_total

  -- The `if` of the inner loop.
  unfoldable pub cut_chunk : Cut W → ℕ → ℕ → Cut W × Result Done
  unfolding fits commit_ingest_range
  cut_chunk c columns row_bytes =
      if fits c.budget columns row_bytes
      then (c, ok tt)
      else started c (commit_ingest_range c.world c.chunk_start c.row_index c.total)

  -- The inner loop, on the number of rows that are left.
  unfoldable pub cut_rows : ℕ → ℕ → ℕ → Cut W → Cut W × Result Done
  unfolding cut_chunk add
  cut_rows columns row_bytes zero c = (c, ok tt)
  cut_rows columns row_bytes (suc n) c =
      then_loop (cut_chunk c columns row_bytes)
        (λ c'. cut_rows columns row_bytes n (counted columns row_bytes c'))

  -- The outer loop.
  unfoldable pub cut_batches : List Batch → Cut W → Cut W × Result Done
  unfolding cut_rows
  cut_batches [] c = (c, ok tt)
  cut_batches (b ∷ bs) c =
      then_loop (cut_rows b.columns (row_bytes_of b) b.num_rows c) (cut_batches bs)

  abbrev pub last_chunk : Cut W × Result Done → W × Result ℕ
  last_chunk (c, ok _) =
      totalled c.total (commit_ingest_range c.world c.chunk_start c.row_index c.total)
  last_chunk (c, err e) = (c.world, err e)

  -- The loop and the last chunk.
  unfoldable pub ship_batches : W → List Batch → W × Result ℕ
  unfolding cut_batches commit_ingest_range
  ship_batches w bound = last_chunk (
      cut_batches bound
        (record { world = w; total = 0; budget = default_budget; chunk_start = 0; row_index = 0 }))
