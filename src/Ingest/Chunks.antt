-- ===== src/Ingest/Chunks.antt =====
-- The loop of `run_ingest_mutations` in src/statement/ingest.rs against the plan of its chunks.
use adbc_spanner.Common.{
  ℕ, zero, suc, ◌+◌, List, [], ◌∷◌, ◌++◌, ◌≡◌, refl, sym, ap, ◌∙◌, inl, inr, Bool-cases, Result, ok,
  err, Done,
}
use adbc_spanner.Ingest.Plan.{Row, repeat, rows_of, Partition, plan_from, plan, plan-Partition}
use adbc_spanner.Ingest.{
  default_budget, fits, add, Batch, row_bytes_of, Cut, commit_ingest_range, cut_chunk, cut_rows,
  cut_batches, ship_batches, started, counted, then_loop, totalled, last_chunk,
}

module _ {W : Type 0} (ship : W → ℕ → ℕ → ℕ → W × Result ℕ) where
  -- The ranges committed one after the other, up to the first error; `total` rows are behind them.
  pub ship_plan : W → ℕ → List (ℕ × ℕ) → W × Result ℕ
  ship_plan w total [] = (w, ok total)
  ship_plan w total ((s, e) ∷ ranges) =
      let (w', r) = commit_ingest_range ship w s e total in
      elim r [ ok n ↦ ship_plan w' (total + n) ranges | err e ↦ (w', err e) ]

  abbrev from_here : Cut W → List Row → W × Result ℕ
  from_here c rows = ship_plan c.world c.total (plan_from c.budget c.chunk_start c.row_index rows)

  abbrev shipped : ℕ → W × Result ℕ → List (ℕ × ℕ) → W × Result ℕ
  shipped total (w, ok n) ranges = ship_plan w (total + n) ranges
  shipped total (w, err e) ranges = (w, err e)

  ship_plan-cons :
      (w : W) (total s e : ℕ) (ranges : List (ℕ × ℕ))
      → ship_plan w total ((s, e) ∷ ranges)
        ≡ shipped total (commit_ingest_range ship w s e total) ranges
  unfolding ship_plan
  ship_plan-cons w total s e ranges = split (commit_ingest_range ship w s e total)
    where
      split :
          (p : W × Result ℕ)
          → (let (w', r) = p in
              elim r [ ok n ↦ ship_plan w' (total + n) ranges | err e ↦ (w', err e) ])
            ≡ shipped total p ranges
      split (w', ok n) = refl
      split (w', err x) = refl

  last_chunk-shipped : (c : Cut W) → last_chunk ship (c, ok tt) ≡ from_here c []
  unfolding plan_from ship_plan
  last_chunk-shipped c =
      split (commit_ingest_range ship c.world c.chunk_start c.row_index c.total)
      ∙ sym (ship_plan-cons c.world c.total c.chunk_start c.row_index [])
    where
      split : (p : W × Result ℕ) → totalled c.total p ≡ shipped c.total p []
      split (w, ok n) = refl
      split (w, err e) = refl

  -- One row of the inner loop, where what follows it keeps to the plan.
  one_row :
      (r : Row) (rows : List Row) (next : Cut W → Cut W × Result Done)
      → ((c : Cut W) → last_chunk ship (next c) ≡ from_here c rows)
      → (c : Cut W)
      → last_chunk ship (
          then_loop
            (cut_chunk ship c r.columns r.bytes)
            (λ c'. next (counted r.columns r.bytes c')))
        ≡ from_here c (r ∷ rows)
  unfolding cut_chunk plan_from
  one_row r rows next h c = elim (Bool-cases (fits c.budget r.columns r.bytes)) [
    | inl t ↦ rw t (h (counted r.columns r.bytes c))
    | inr f ↦ rw f (
        after (commit_ingest_range ship c.world c.chunk_start c.row_index c.total)
        ∙ sym (
            ship_plan-cons c.world c.total c.chunk_start c.row_index (
              plan_from (add default_budget r.columns r.bytes) c.row_index (c.row_index + 1) rows)))
  ]
    where
      after :
          (p : W × Result ℕ)
          → last_chunk ship (then_loop (started c p) (λ c'. next (counted r.columns r.bytes c')))
            ≡ shipped c.total p (
                plan_from (add default_budget r.columns r.bytes) c.row_index (c.row_index + 1) rows)
      after (w, ok n) = h (
          counted r.columns r.bytes (record c {
            world = w;
            total = c.total + n;
            budget = default_budget;
            chunk_start = c.row_index;
          }))
      after (w, err e) = refl

  then_loop_assoc :
      (p : Cut W × Result Done) (j k : Cut W → Cut W × Result Done)
      → then_loop (then_loop p j) k ≡ then_loop p (λ c. then_loop (j c) k)
  then_loop_assoc (c, ok _) j k = refl
  then_loop_assoc (c, err e) j k = refl

  cut_rows-from_here :
      (r : Row) (rest : List Row) (k : Cut W → Cut W × Result Done)
      → ((c : Cut W) → last_chunk ship (k c) ≡ from_here c rest)
      → (n : ℕ) (c : Cut W)
      → last_chunk ship (then_loop (cut_rows ship r.columns r.bytes n c) k)
        ≡ from_here c (repeat n r ++ rest)
  unfolding cut_rows
  cut_rows-from_here r rest k h zero c = h c
  cut_rows-from_here r rest k h (suc n) c =
      ap (last_chunk ship) (
        then_loop_assoc (cut_chunk ship c r.columns r.bytes)
          (λ c'. cut_rows ship r.columns r.bytes n (counted r.columns r.bytes c')) k)
      ∙ one_row r (repeat n r ++ rest) (λ c'. then_loop (cut_rows ship r.columns r.bytes n c') k)
          (cut_rows-from_here r rest k h n) c

  cut_batches-from_here :
      (bs : List Batch) (c : Cut W)
      → last_chunk ship (cut_batches ship bs c) ≡ from_here c (rows_of bs)
  unfolding cut_batches
  cut_batches-from_here [] c = last_chunk-shipped c
  cut_batches-from_here (b ∷ bs) c =
      cut_rows-from_here (record { columns = b.columns; bytes = row_bytes_of b }) (rows_of bs)
        (cut_batches ship bs) (cut_batches-from_here bs) b.num_rows c

  ship_batches-plan :
      (w : W) (bound : List Batch)
      → ship_batches ship w bound ≡ ship_plan w 0 (plan (rows_of bound))
  unfolding ship_batches plan
  ship_batches-plan w bound = cut_batches-from_here bound _

  -- There are ranges that partition the flattened rows of the batches, in order, into chunks that are
  -- one row or within both limits, none but the last empty; and the loops commit exactly these ranges,
  -- in order, stop at the first error, and return the sum of what was committed.
  pub ship_batches-Partition :
      (w : W) (bound : List Batch)
      → (ranges : List (ℕ × ℕ)) × Partition 0 (rows_of bound) ranges
        × (ship_batches ship w bound ≡ ship_plan w 0 ranges)
  ship_batches-Partition w bound =
      (plan (rows_of bound), plan-Partition (rows_of bound), ship_batches-plan w bound)
