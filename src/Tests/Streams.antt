-- ===== src/Tests/Streams.antt =====
-- Runs of the model of src/ffi/stream.rs.
use adbc_spanner.Common.{
  ℕ, ◌+◌, true, false, List, [], ◌∷◌, some, ◌==◌, if◌then◌else◌, ◌≡◌, refl, cancelled,
}
use adbc_spanner.Ffi.Stream.{
  Reader, Answer, ArrowVariant, Code, export_reader, get_next, get_last_error,
  error_from_array_stream, adbc_status_to_errno,
}
use adbc_spanner.Ffi.Stream.Reports.{Op, made_all, is_some, is_reported, errors_reported}

-- A batch, then an error that carries a driver's own, then a batch, then a panic.
abbrev counting : Reader ℕ ℕ ℕ
counting = record {
  schema = λ n. Answer.gives n;
  next = λ n.
      if n == 1
      then (2, Answer.fails (record { variant = ArrowVariant.another; embedded = some cancelled }))
      else if n == 3
      then (3, Answer.panics)
      else (n + 1, Answer.gives (some n));
}

abbrev stream_calls : List Op
stream_calls =
    Op.next_op true
    ∷ Op.next_op true
    ∷ Op.schema_op true
    ∷ Op.structured_op
    ∷ Op.next_op true
    ∷ Op.next_op true
    ∷ Op.next_op false
    ∷ []

stream_run :
    (get_next counting true (made_all counting (Op.next_op true ∷ []) (export_reader 0) false).0).1
    ≡ Code.ecanceled
unfolding made_all export_reader get_next adbc_status_to_errno
stream_run = refl

errors_reported_example :
    (is_reported
        (error_from_array_stream (made_all counting stream_calls (export_reader 0) false).0).1
      ≡ some (made_all counting stream_calls (export_reader 0) false).1)
    × (is_some (get_last_error (made_all counting stream_calls (export_reader 0) false).0)
        ≡ (made_all counting stream_calls (export_reader 0) false).1)
errors_reported_example = errors_reported counting stream_calls 0
