-- ===== src/Ingest/Range.antt =====
-- `build_range_mutations` of src/statement/ingest.rs: the insert mutations of a range of the flattened
-- rows. `insert_mutation` of src/bind.rs, for a row of a batch, is a parameter.
pub mod Flat
use adbc_spanner.Common.{
  ℕ, zero, suc, ◌+◌, ◌-◌, List, [], ◌∷◌, ◌++◌, leb, if◌then◌else◌, Result, ok, err, ◌>>=◌,
}

abbrev pub max : ℕ → ℕ → ℕ
max a b = if leb a b then b else a

abbrev pub min : ℕ → ℕ → ℕ
min a b = if leb a b then a else b

module _ {B M : Type 0} (num_rows : B → ℕ) (insert_mutation : B → ℕ → Result M) where
  -- The inner loop, from a row on for a number of rows.
  unfoldable pub build_rows : B → ℕ → ℕ → Result (List M)
  build_rows batch row zero = ok []
  build_rows batch row (suc n) = do
    m ← insert_mutation batch row
    ms ← build_rows batch (row + 1) n
    ok (m ∷ ms)

  -- The outer loop; `base` is the number of rows before the batch.
  unfoldable pub build_batches : ℕ → ℕ → ℕ → List B → Result (List M)
  unfolding build_rows
  build_batches base start end [] = ok []
  build_batches base start end (batch ∷ batches) =
      let lo = max start base - base in
      let hi = min end (base + num_rows batch) - base in
      let rest = build_batches (base + num_rows batch) start end batches in
      (build_rows batch lo (hi - lo) >>= λ ms.
      if leb end (base + num_rows batch) then ok ms else (rest >>= λ more. ok (ms ++ more)))

  unfoldable pub build_range_mutations : List B → ℕ → ℕ → Result (List M)
  unfolding build_batches
  build_range_mutations bound start end = build_batches 0 start end bound
