-- ===== src/Ingest/Bisect.antt =====
-- `write_mutation_range` of src/statement/ingest.rs. The mutations of a range and the write-only
-- transaction are parameters. An error is its status; of its message, only whether it is Spanner's
-- rejection of too many mutations, and of the note that `note_rows_already_committed` adds, its two parts.
pub mod Transport
pub mod Accounting
use adbc_spanner.Common.{
  ℕ, true, false, zero, suc, ◌+◌, ◌-◌, ◌/◌, Bool, List, [], ◌∷◌, length, is_nil, ltb, if◌then◌else◌,
  Result, ok, err, Status, invalid_arguments, timeout, cancelled,
}

-- What `write_mutations_txn` answers; `too_many` is an error of `is_mutation_limit_exceeded`.
pub data Reply : Type 0 where
  accepted too_many : Reply
  refused : Status → Reply

-- What `write_mutation_range` answers: a count, or an error with its note, the count of the rows
-- committed before and whether the outcome of the failing write is said to be unknown.
pub data Ranged : Type 0 where
  wrote : ℕ → Ranged
  failed : Status → ℕ → Bool → Ranged
  out_of_fuel : Ranged

-- `matches!(error.status, Status::Timeout | Status::Cancelled)`
abbrev pub is_outcome_unknown : Status → Bool
is_outcome_unknown timeout = true
is_outcome_unknown cancelled = true
is_outcome_unknown _ = false

-- A count of 0 is left out of the note.
abbrev pub note_rows_already_committed : Status → ℕ → Ranged
note_rows_already_committed e committed = failed e committed (is_outcome_unknown e)

abbrev pub midpoint : ℕ → ℕ → ℕ
midpoint start end = start + (end - start) / 2

module _ {W : Type 0} where
  abbrev pub both : ℕ → W × Ranged → W × Ranged
  both left (w, wrote right) = (w, wrote (left + right))
  both left (w, failed e n u) = (w, failed e n u)
  both left (w, out_of_fuel) = (w, out_of_fuel)

  -- The two recursive calls.
  abbrev pub halves : W × Ranged → (W → ℕ → W × Ranged) → W × Ranged
  halves (w, wrote left) right = both left (right w left)
  halves (w, failed e n u) right = (w, failed e n u)
  halves (w, out_of_fuel) right = (w, out_of_fuel)

  -- The match on the reply; `retry` is the bisection.
  abbrev pub conclude_range : ℕ → Bool → ℕ → (W → W × Ranged) → W × Reply → W × Ranged
  conclude_range count divisible prior_total retry (w, accepted) = (w, wrote count)
  conclude_range count divisible prior_total retry (w, too_many) = elim divisible [
    | true ↦ retry w
    | false ↦ (w, note_rows_already_committed invalid_arguments prior_total)
  ]
  conclude_range count divisible prior_total retry (w, refused e) =
      (w, note_rows_already_committed e prior_total)

module _ {W M : Type 0} (build : ℕ → ℕ → Result (List M)) (write : W → List M → W × Reply) where
  -- `write_mutations_txn` sends nothing for no mutations.
  abbrev pub submit : W → List M → W × Reply
  submit w mutations = if is_nil mutations then (w, accepted) else write w mutations

  unfoldable pub write_mutation_range : ℕ → W → ℕ → ℕ → ℕ → W × Ranged
  write_mutation_range zero w start end prior_total = (w, out_of_fuel)
  write_mutation_range (suc fuel) w start end prior_total = elim (build start end) [
    | err e ↦ (w, note_rows_already_committed e prior_total)
    | ok mutations ↦
        conclude_range (length mutations) (ltb 1 (end - start)) prior_total
          (λ w'.
            halves (write_mutation_range fuel w' start (midpoint start end) prior_total)
              (λ w'' left.
                write_mutation_range fuel w'' (midpoint start end) end (prior_total + left)))
          (submit w mutations)
  ]
