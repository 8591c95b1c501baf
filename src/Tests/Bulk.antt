-- ===== src/Tests/Bulk.antt =====
-- Runs of the chunks of src/statement/ingest.rs, with a transport that logs the ranges.
use adbc_spanner.Common.{ℕ, ◌-◌, List, [], ◌∷◌, ◌++◌, ◌≡◌, refl, Result, ok}
use adbc_spanner.Common.{◌+◌, drop, take, err, invalid_data, ltb, if◌then◌else◌}
use adbc_spanner.Ingest.Range.{build_range_mutations}
use adbc_spanner.Ingest.Range.Flat.{sequence, flat, build_range_mutations-flat}
use adbc_spanner.Common.{Bool, true, length, cancelled, ◌==◌, arith}
use adbc_spanner.Ingest.Bisect.{
  Reply, accepted, too_many, refused, wrote, failed, write_mutation_range,
}
use adbc_spanner.Ingest.Bisect.Transport.{logged}
use adbc_spanner.Ingest.Bisect.Accounting.{Accounts, write_mutation_range-Accounts}
use adbc_spanner.Ingest.{Batch, ship_batches}
use adbc_spanner.Ingest.Plan.{rows_of, Partition}
use adbc_spanner.Ingest.Chunks.{ship_plan, ship_batches-Partition}

abbrev log_range : List (ℕ × ℕ) → ℕ → ℕ → ℕ → List (ℕ × ℕ) × Result ℕ
log_range log start end prior_total = (log ++ (start, end) ∷ [], ok (end - start))

-- Three rows of 8000 columns, then one beyond the limit by itself.
abbrev wide : List Batch
wide =
    record { columns = 8000; memory_size = 300; num_rows = 3 }
    ∷ record { columns = 30000; memory_size = 5; num_rows = 1 }
    ∷ []

chunks_test : ship_batches log_range [] wide ≡ ((0, 2) ∷ (2, 3) ∷ (3, 4) ∷ [], ok 4)
unfolding ship_batches
chunks_test = refl

no_rows_test : ship_batches log_range [] [] ≡ ([], ok 0)
unfolding ship_batches
no_rows_test = refl

ship_batches-Partition_example :
    (ranges : List (ℕ × ℕ)) × Partition 0 (rows_of wide) ranges
    × (ship_batches log_range [] wide ≡ ship_plan log_range [] 0 ranges)
ship_batches-Partition_example = ship_batches-Partition log_range [] wide

-- Batches named by their numbers of rows; a cell beyond the fourth cannot be converted.
abbrev insert_cell : ℕ → ℕ → Result ℕ
insert_cell batch row = if ltb row 4 then ok (batch + row) else err invalid_data

abbrev batches : List ℕ
batches = 2 ∷ 3 ∷ 9 ∷ []

range_test : build_range_mutations (λ b. b) insert_cell batches 1 6 ≡ ok (3 ∷ 3 ∷ 4 ∷ 5 ∷ 9 ∷ [])
unfolding build_range_mutations
range_test = refl

range_error_test : build_range_mutations (λ b. b) insert_cell batches 0 14 ≡ err invalid_data
unfolding build_range_mutations
range_error_test = refl

build_range_mutations-flat_example :
    build_range_mutations (λ b. b) insert_cell batches 1 6
    ≡ sequence (take 5 (drop 1 (flat (λ b. b) insert_cell batches)))
build_range_mutations-flat_example = build_range_mutations-flat (λ b. b) insert_cell batches 1 6

-- A transport that takes at most two mutations at a time, and one that then refuses a third write.
abbrev narrow : ℕ → List ℕ → ℕ × Reply
narrow writes ms =
    if ltb 2 (length ms)
    then (writes, too_many)
    else if writes == 2
    then (writes, refused cancelled)
    else (writes + 1, accepted)

-- Whatever is cut off lands.
abbrev lands : ℕ → List ℕ → Bool
lands writes ms = true

abbrev cells : ℕ → ℕ → Result (List ℕ)
cells = build_range_mutations (λ b. b) insert_cell (3 ∷ 4 ∷ [])

bisect_test :
    write_mutation_range cells (logged lands narrow) 8 (0, []) 0 4 10
    ≡ ((2, 3 ∷ 4 ∷ 5 ∷ 4 ∷ []), wrote 4)
unfolding write_mutation_range build_range_mutations
bisect_test = refl

bisect_error_test :
    write_mutation_range cells (logged lands narrow) 8 (0, []) 0 7 10
    ≡ ((2, 3 ∷ 4 ∷ 5 ∷ 4 ∷ 5 ∷ []), failed cancelled 13 true)
unfolding write_mutation_range build_range_mutations
bisect_error_test = refl

write_mutation_range-Accounts_example :
    Accounts cells lands narrow [] 0 7 10
      (write_mutation_range cells (logged lands narrow) 8 (0, []) 0 7 10)
write_mutation_range-Accounts_example =
    write_mutation_range-Accounts cells lands narrow 8 0 [] 0 7 10 (omega arith) (omega arith)
