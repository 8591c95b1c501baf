-- ===== src/Ingest/Range/Flat.antt =====
-- `build_range_mutations` of src/statement/ingest.rs against the flattened rows as one list.
use adbc_spanner.Common.{
  ℕ, zero, suc, ◌+◌, ◌-◌, ◌≤◌, List, [], ◌∷◌, ◌++◌, ◌≡◌, refl, sym, ap, ap₂, ◌∙◌, ◌⊎◌, inl, inr,
  append-nil, length, length-drop, drop, take, take_same, take-nil, drop-nil, part_eq, take-drop,
  arith, leb, if◌then◌else◌, Result, ok, err, ◌>>=◌, Bool-cases,
}
use adbc_spanner.Ingest.Range.{max, min, build_rows, build_batches, build_range_mutations}

module _ {M : Type 0} where
  -- Results one after the other, up to the first error.
  pub sequence : List (Result M) → Result (List M)
  sequence [] = ok []
  sequence (r ∷ rs) = do m ← r; ms ← sequence rs; ok (m ∷ ms)

  bind_same :
      {r r' : Result (List M)} {f g : List M → Result (List M)}
      → r ≡ r'
      → ((ms : List M) → f ms ≡ g ms)
      → (r >>= f) ≡ (r' >>= g)
  bind_same {r} {r'} {f} {g} e h = ap (λ r. r >>= f) e ∙ on r'
    where
      on : (r : Result (List M)) → (r >>= f) ≡ (r >>= g)
      on (ok ms) = h ms
      on (err s) = refl

  sequence-append :
      (xs ys : List (Result M))
      → sequence (xs ++ ys) ≡ (sequence xs >>= λ a. sequence ys >>= λ b. ok (a ++ b))
  unfolding sequence
  sequence-append [] ys = unit (sequence ys)
    where
      unit : (r : Result (List M)) → r ≡ (r >>= λ b. ok b)
      unit (ok b) = refl
      unit (err e) = refl
  sequence-append (ok m ∷ xs) ys =
      ap (λ r. r >>= λ ms. ok (m ∷ ms)) (sequence-append xs ys) ∙ shift (sequence xs) (sequence ys)
    where
      shift :
          (a b : Result (List M))
          → ((a >>= λ x. b >>= λ y. ok (x ++ y)) >>= λ ms. ok (m ∷ ms))
            ≡ ((a >>= λ ms. ok (m ∷ ms)) >>= λ x. b >>= λ y. ok (x ++ y))
      shift (ok x) (ok y) = refl
      shift (ok x) (err e) = refl
      shift (err e) b = refl
  sequence-append (err e ∷ xs) ys = refl

-- The bounds of the rows taken of a batch.
fitting :
    (base s e r : ℕ)
    → ((min e (base + r) - base - (max s base - base)) + (max s base - base) ≤ r)
      ⊎ (min e (base + r) - base - (max s base - base) ≡ 0)
fitting base s e r = elim (Bool-cases (leb (max s base) (min e (base + r)))) [
  | inl t ↦ inl (ground arith)
  | inr f ↦ inr (ground arith)
]

same_part :
    (n base s e r : ℕ)
    → n ≡ r - (s - base)
    → (e - max s base ≡ min e (base + r) - base - (max s base - base))
      ⊎ ((n ≤ e - max s base) × (n ≤ min e (base + r) - base - (max s base - base)))
same_part n base s e r h = elim (Bool-cases (leb e (base + r))) [
  | inl t ↦ inl (ground arith)
  | inr f ↦ inr (ground arith, ground arith)
]

module _ {B M : Type 0} (num_rows : B → ℕ) (insert_mutation : B → ℕ → Result M) where
  pub rows_from : B → ℕ → ℕ → List (Result M)
  rows_from batch row zero = []
  rows_from batch row (suc n) = insert_mutation batch row ∷ rows_from batch (row + 1) n

  -- The rows of all the batches.
  pub flat : List B → List (Result M)
  flat [] = []
  flat (batch ∷ batches) = rows_from batch 0 (num_rows batch) ++ flat batches

  build_rows-sequence :
      (b : B) (row n : ℕ)
      → build_rows num_rows insert_mutation b row n ≡ sequence (rows_from b row n)
  unfolding build_rows sequence rows_from
  build_rows-sequence b row zero = refl
  build_rows-sequence b row (suc n) =
      ap (λ r. insert_mutation b row >>= λ m. r >>= λ ms. ok (m ∷ ms))
        (build_rows-sequence b (row + 1) n)

  length-rows_from : (b : B) (row n : ℕ) → length (rows_from b row n) ≡ n
  unfolding rows_from
  length-rows_from b row zero = refl
  length-rows_from b row (suc n) = ap suc (length-rows_from b (row + 1) n)

  -- A part of a batch's rows.
  rows_from-part :
      (b : B) (k lo row n : ℕ)
      → (k + lo ≤ n) ⊎ (k ≡ 0)
      → take k (drop lo (rows_from b row n)) ≡ rows_from b (row + lo) k
  unfolding rows_from
  rows_from-part b zero lo row n h = refl
  rows_from-part b (suc k) zero row zero h = absurd (elim h [ inl l ↦ omega arith | inr z ↦ cc ])
  rows_from-part b (suc k) zero row (suc n) h =
      ap₂ (λ i l. insert_mutation b i ∷ l) {x = row} {y = row + 0} (omega arith)
        (rows_from-part b k zero (row + 1) n (inl (elim h [ inl l ↦ omega arith | inr z ↦ cc ]))
          ∙ ap (λ i. rows_from b i k) {x = row + 1 + 0} {y = row + 0 + 1} (omega arith))
  rows_from-part b (suc k) (suc lo) row zero h =
      absurd (elim h [ inl l ↦ omega arith | inr z ↦ cc ])
  rows_from-part b (suc k) (suc lo) row (suc n) h =
      rows_from-part b (suc k) lo (row + 1) n (inl (elim h [ inl l ↦ omega arith | inr z ↦ cc ]))
      ∙ ap (λ i. rows_from b i (suc k)) {x = row + 1 + lo} {y = row + suc lo} (omega arith)

  -- Of a batch: what is taken of its rows, and what is left to take of the others.
  here :
      (b : B) (base s e : ℕ)
      → take (e - max s base) (drop (s - base) (rows_from b 0 (num_rows b)))
        ≡ rows_from b (max s base - base) (min e (base + num_rows b) - base - (max s base - base))
  here b base s e =
      let r = num_rows b in
      let lo = max s base - base in
      let k = min e (base + r) - base - lo in
      let xs = drop (s - base) (rows_from b 0 r) in
      take_same (e - max s base) k xs (
        same_part (length xs) base s e r (
          length-drop (s - base) (rows_from b 0 r)
          ∙ ap (λ n. n - (s - base)) (length-rows_from b 0 r)))
      ∙ ap (λ d. take k (drop d (rows_from b 0 r))) {x = s - base} {y = lo} (ground arith)
      ∙ rows_from-part b k lo 0 r (fitting base s e r)
      ∙ ap (λ i. rows_from b i k) {x = 0 + lo} {y = lo} (omega arith)

  -- What the loop does behind a batch.
  later :
      (b : B) (bs : List B) (base s e : ℕ) (ms : List M)
      → build_batches num_rows insert_mutation (base + num_rows b) s e bs
        ≡ sequence (take (e - max s (base + num_rows b)) (drop (s - (base + num_rows b)) (flat bs)))
      → (if leb e (base + num_rows b)
          then ok ms
          else (build_batches num_rows insert_mutation (base + num_rows b) s e bs >>= λ more.
              ok (ms ++ more)))
        ≡ (sequence (
              take
                (e - max s base - (length (rows_from b 0 (num_rows b)) - (s - base)))
                (drop (s - base - length (rows_from b 0 (num_rows b))) (flat bs)))
            >>= λ more. ok (ms ++ more))
  unfolding sequence
  later b bs base s e ms h =
      let size = length-rows_from b 0 (num_rows b) in
      let n = e - max s base - (length (rows_from b 0 (num_rows b)) - (s - base)) in
      let d = s - base - length (rows_from b 0 (num_rows b)) in
      elim (Bool-cases (leb e (base + num_rows b))) [
        | inl t ↦ rw t (
            ap (λ l. ok l) (sym (append-nil ms))
            ∙ ap (λ l. sequence l >>= λ more. ok (ms ++ more))
                (part_eq 0 n d d (flat bs) (ground (arith, size)) refl))
        | inr f ↦ rw f (
            ap (λ r. r >>= λ more. ok (ms ++ more))
              (h
                ∙ ap sequence (
                    part_eq (e - max s (base + num_rows b)) n (s - (base + num_rows b)) d (flat bs)
                      (ground (arith, size)) (ground (arith, size)))))
      ]

  build_batches-flat :
      (bs : List B) (base s e : ℕ)
      → build_batches num_rows insert_mutation base s e bs
        ≡ sequence (take (e - max s base) (drop (s - base) (flat bs)))
  unfolding build_batches flat sequence
  build_batches-flat [] base s e =
      ap sequence
        (sym (ap (take (e - max s base)) (drop-nil (s - base)) ∙ take-nil (e - max s base)))
  build_batches-flat (b ∷ bs) base s e =
      let r = num_rows b in
      let xs = rows_from b 0 r in
      let n = e - max s base in
      let left = take (n - (length xs - (s - base))) (drop (s - base - length xs) (flat bs)) in
      bind_same
        (build_rows-sequence b (max s base - base) (min e (base + r) - base - (max s base - base))
          ∙ ap sequence (sym (here b base s e)))
        (λ ms. later b bs base s e ms (build_batches-flat bs (base + r) s e))
      ∙ sym (sequence-append (take n (drop (s - base) xs)) left)
      ∙ ap sequence (sym (take-drop n (s - base) xs (flat bs)))

  -- The mutations of the range from `start` to `end` are those of these rows of all the batches taken
  -- together, in order, or the first error among them.
  pub build_range_mutations-flat :
      (bound : List B) (start end : ℕ)
      → build_range_mutations num_rows insert_mutation bound start end
        ≡ sequence (take (end - start) (drop start (flat bound)))
  unfolding build_range_mutations
  build_range_mutations-flat bound start end =
      build_batches-flat bound 0 start end
      ∙ ap sequence (
          part_eq (end - max start 0) (end - start) (start - 0) start (flat bound) (ground arith)
            (omega arith))
