-- ===== src/Ingest/Plan.antt =====
-- The chunks of src/statement/ingest.rs as a plan made of the rows alone: what the loop of
-- `run_ingest_mutations` is compared with.
use adbc_spanner.Common.{
  ℕ, zero, suc, ◌+◌, ◌≤◌, ◌<◌, Bool, true, false, List, [], ◌∷◌, ◌++◌, ◌≡◌, refl, sym, ap, ◌∙◌,
  subst, ◌⊎◌, inl, inr, append-nil, append_assoc, length, length-append, arith, if◌then◌else◌,
}
use adbc_spanner.Ingest.{
  ingest_chunk_mutation_limit, ingest_chunk_byte_budget, saturated, Budget, default_budget, fits,
  add, Batch, row_bytes_of,
}

-- What a row costs.
pub record Row : Type 0 where
  pub columns : ℕ
  pub bytes : ℕ

abbrev pub columns_of : List Row → ℕ
columns_of [] = 0
columns_of (r ∷ rs) = r.columns + columns_of rs

abbrev pub bytes_of : List Row → ℕ
bytes_of [] = 0
bytes_of (r ∷ rs) = r.bytes + bytes_of rs

abbrev pub repeat : ℕ → Row → List Row
repeat zero r = []
repeat (suc n) r = r ∷ repeat n r

-- The flattened rows.
abbrev pub rows_of : List Batch → List Row
rows_of [] = []
rows_of (b ∷ bs) =
    repeat b.num_rows (record { columns = b.columns; bytes = row_bytes_of b }) ++ rows_of bs

-- A chunk of at most one row, or within both limits.
abbrev pub Small : List Row → Type 0
Small c =
    (length c ≤ 1)
    ⊎ ((columns_of c ≤ ingest_chunk_mutation_limit) × (bytes_of c ≤ ingest_chunk_byte_budget))

-- The ranges of a list partition the rows from an index on, in order, into small chunks; none but the
-- last can be empty.
pub data Partition : ℕ → List Row → List (ℕ × ℕ) → Type 0 where
  last :
      {s : ℕ} {rows : List Row} (e : ℕ)
      → e ≡ s + length rows
      → Small rows
      → Partition s rows ((s, e) ∷ [])
  more :
      {s : ℕ} {rows : List Row} {plan : List (ℕ × ℕ)} (e : ℕ) (c rest : List Row)
      → rows ≡ c ++ rest
      → e ≡ s + length c
      → s < e
      → Small c
      → Partition e rest plan
      → Partition s rows ((s, e) ∷ plan)

-- The ranges that the loop cuts.
unfoldable pub plan_from : Budget → ℕ → ℕ → List Row → List (ℕ × ℕ)
plan_from b s r [] = (s, r) ∷ []
plan_from b s r (row ∷ rows) =
    if fits b row.columns row.bytes
    then plan_from (add b row.columns row.bytes) s (r + 1) rows
    else (s, r) ∷ plan_from (add default_budget row.columns row.bytes) r (r + 1) rows

unfoldable pub plan : List Row → List (ℕ × ℕ)
plan rows = plan_from default_budget 0 0 rows

-- The budget is that of the rows taken.
record Spent (b : Budget) (taken : List Row) : Type 0 where
  rows : b.rows ≡ length taken
  mutations : b.mutations ≡ saturated (columns_of taken)
  bytes : b.bytes ≡ saturated (bytes_of taken)

columns_snoc : (c : List Row) (r : Row) → columns_of (c ++ r ∷ []) ≡ columns_of c + r.columns
columns_snoc [] r = omega arith
columns_snoc (x ∷ xs) r = omega (arith, columns_snoc xs r)

bytes_snoc : (c : List Row) (r : Row) → bytes_of (c ++ r ∷ []) ≡ bytes_of c + r.bytes
bytes_snoc [] r = omega arith
bytes_snoc (x ∷ xs) r = omega (arith, bytes_snoc xs r)

saturated_add : (m a b : ℕ) → m ≡ saturated a → saturated (m + b) ≡ saturated (a + b)
saturated_add m a b e = ground arith

Spent-add :
    (b : Budget) (taken : List Row) (r : Row)
    → Spent b taken
    → Spent (add b r.columns r.bytes) (taken ++ r ∷ [])
unfolding add
Spent-add b taken r v = record {
  rows = omega (arith, v.rows, length-append taken (r ∷ []));
  mutations =
      saturated_add b.mutations (columns_of taken) r.columns v.mutations
      ∙ ap saturated (sym (columns_snoc taken r));
  bytes =
      saturated_add b.bytes (bytes_of taken) r.bytes v.bytes
      ∙ ap saturated (sym (bytes_snoc taken r));
}

fits-Small :
    (b : Budget) (taken : List Row) (r : Row)
    → Spent b taken
    → fits b r.columns r.bytes ≡ true
    → Small (taken ++ r ∷ [])
unfolding fits
fits-Small b [] r v h = inl (omega arith)
fits-Small b (x ∷ xs) r v h = inr (
  ground (arith, v.rows, v.mutations, columns_snoc (x ∷ xs) r),
  ground (arith, v.rows, v.bytes, bytes_snoc (x ∷ xs) r),
)

overfull :
    (b : Budget) (taken : List Row) (r : Row)
    → Spent b taken
    → fits b r.columns r.bytes ≡ false
    → 0 < length taken
unfolding fits
overfull b [] r v h = ground (arith, v.rows)
overfull b (x ∷ xs) r v h = omega arith

Small-one : (r : Row) → Small (r ∷ [])
Small-one r = inl (omega arith)

Spent-one : (r : Row) → Spent (add default_budget r.columns r.bytes) (r ∷ [])
Spent-one r = Spent-add default_budget [] r (record { rows = refl; mutations = refl; bytes = refl })

by_test :
    {A : Type 0} (P : A → Type 0) (b : Bool) {x y : A}
    → (b ≡ true → P x)
    → (b ≡ false → P y)
    → P (if b then x else y)
by_test P true f g = f refl
by_test P false f g = g refl

plan_from-Partition :
    (rows : List Row) (b : Budget) (s r : ℕ) (taken : List Row)
    → Spent b taken
    → Small taken
    → r ≡ s + length taken
    → Partition s (taken ++ rows) (plan_from b s r rows)
unfolding plan_from
plan_from-Partition [] b s r taken v m e =
    subst (λ l. Partition s l ((s, r) ∷ [])) (sym (append-nil taken)) (last r e m)
plan_from-Partition (row ∷ rows) b s r taken v m e =
    by_test (Partition s (taken ++ row ∷ rows)) (fits b row.columns row.bytes)
      (λ h.
        subst (λ l. Partition s l (plan_from (add b row.columns row.bytes) s (r + 1) rows))
          (append_assoc taken (row ∷ []) rows)
          (plan_from-Partition rows (add b row.columns row.bytes) s (r + 1) (taken ++ row ∷ [])
            (Spent-add b taken row v) (fits-Small b taken row v h)
            (omega (arith, length-append taken (row ∷ [])))))
      (λ h. more r taken (row ∷ rows) refl e (omega (arith, overfull b taken row v h)) m (
        plan_from-Partition rows (add default_budget row.columns row.bytes) r (r + 1) (row ∷ [])
          (Spent-one row) (Small-one row) (omega arith)))

pub plan-Partition : (rows : List Row) → Partition 0 rows (plan rows)
unfolding plan
plan-Partition rows =
    plan_from-Partition rows default_budget 0 0 []
      (record { rows = refl; mutations = refl; bytes = refl }) (inl (omega arith)) refl
