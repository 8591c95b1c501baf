-- ===== src/Ffi/Stream.antt =====
-- src/ffi/stream.rs: the Arrow C stream that the driver exports, with its callbacks and the error behind
-- the last failed one.
pub mod Reports
use adbc_spanner.Common.{
  ℕ, Bool, true, false, not, ◌||◌, Option, none, some, ◌==◌, if◌then◌else◌, Status,
  invalid_arguments, invalid_state, invalid_data, not_found, not_implemented, already_exists,
  internal, cancelled, timeout, io, unauthenticated, unauthorized, unknown, integrity, okay,
}

-- What a callback returns: 0, or an errno.
pub data Code : Type 0 where
  success eacces ecanceled eexist einval eio enoent enomem enosys enotsup etimedout : Code

-- The variants of `ArrowError` that `arrow_error` tells apart.
pub data ArrowVariant : Type 0 where
  not_yet_implemented memory_error io_error another : ArrowVariant

-- An `ArrowError`, with the status of the driver's own error where its chain holds one.
pub record ArrowError : Type 0 where
  pub variant : ArrowVariant
  pub embedded : Option Status

-- How a call into the reader ends, with the conversion of what it gives.
pub data Answer (A : Type 0) : Type 0 where
  gives : A → Answer A
  fails : ArrowError → Answer A
  panics : Answer A

-- A `RecordBatchReader` with state `R`, over schemas `Sch` and batches `Bat`. `next` gives `none` at the
-- end; a call that panics leaves a state too.
pub record Reader (R Sch Bat : Type 0) : Type 0 where
  pub schema : R → Answer Sch
  pub next : R → R × Answer (Option Bat)

abbrev pub stream_magic : ℕ
stream_magic = 0x5350414e5354524d

-- `PrivateData`. `exported_error` is the `AdbcError` once it is made, with the status it holds.
pub record PrivateData (R : Type 0) : Type 0 where
  pub magic : ℕ
  pub reader : R
  pub last_error : Option Status
  pub exported_error : Option (Option Status)
  pub panicked : Bool

-- The `release` callback: this module's, or another library's.
pub data Callback : Type 0 where
  ours foreign : Callback

-- `FFI_ArrowArrayStream`
pub record Stream (R : Type 0) : Type 0 where
  pub release : Option Callback
  pub private_data : Option (PrivateData R)

unfoldable pub adbc_status_to_errno : Status → Code
adbc_status_to_errno unknown = Code.eio
adbc_status_to_errno not_implemented = Code.enotsup
adbc_status_to_errno not_found = Code.enoent
adbc_status_to_errno already_exists = Code.eexist
adbc_status_to_errno invalid_arguments = Code.einval
adbc_status_to_errno invalid_state = Code.einval
adbc_status_to_errno invalid_data = Code.eio
adbc_status_to_errno internal = Code.eio
adbc_status_to_errno io = Code.eio
adbc_status_to_errno cancelled = Code.ecanceled
adbc_status_to_errno timeout = Code.etimedout
adbc_status_to_errno unauthenticated = Code.eacces
adbc_status_to_errno unauthorized = Code.eacces
adbc_status_to_errno integrity = Code.eio
adbc_status_to_errno okay = Code.eio

abbrev pub arrow_codes : ArrowVariant → Code × Status
arrow_codes ArrowVariant.not_yet_implemented = (Code.enosys, not_implemented)
arrow_codes ArrowVariant.memory_error = (Code.enomem, internal)
arrow_codes ArrowVariant.io_error = (Code.eio, io)
arrow_codes ArrowVariant.another = (Code.einval, unknown)

-- An embedded error of the driver outranks the variant.
unfoldable pub ranked : ArrowVariant → Option Status → Code × Status
unfolding adbc_status_to_errno
ranked variant none = arrow_codes variant
ranked variant (some status) = (adbc_status_to_errno status, status)

-- What a callback leaves: its data, its code, and what it wrote through `out`.
abbrev pub Left : Type 0 → Type 0 → Type 0
Left R A = PrivateData R × Code × Option A

abbrev pub is_ours : Option Callback → Bool
is_ours (some Callback.ours) = true
is_ours (some Callback.foreign) = false
is_ours none = false

module _ {R : Type 0} where
  unfoldable pub export_reader : R → Stream R
  export_reader reader = record {
    release = some Callback.ours;
    private_data = some (record {
      magic = stream_magic;
      reader = reader;
      last_error = none;
      exported_error = none;
      panicked = false;
    });
  }

  abbrev pub set_error : Status → PrivateData R → PrivateData R
  set_error status private = record private { last_error = some status }

  abbrev pub fail : {A : Type 0} → PrivateData R → Left R A
  fail private = (set_error invalid_arguments private, Code.einval, none)

  unfoldable pub arrow_error : {A : Type 0} → ArrowError → PrivateData R → Left R A
  unfolding ranked
  arrow_error error private = (
    set_error (ranked error.variant error.embedded).1 private,
    (ranked error.variant error.embedded).0,
    none,
  )

  -- The end of `catch_callback`.
  abbrev pub caught : {A : Type 0} → PrivateData R → Left R A
  caught private = (set_error internal (record private { panicked = true }), Code.einval, none)

  abbrev pub answered : {A : Type 0} → Answer A → PrivateData R → Left R A
  answered (Answer.gives a) private = (private, Code.success, some a)
  answered (Answer.fails error) private = arrow_error error private
  answered Answer.panics private = caught private

  abbrev pub written : {A : Type 0} → Stream R → Left R A → Stream R × Code × Option A
  written stream (private, code, out) = (record stream { private_data = some private }, code, out)

  abbrev pub callback_on :
      {A : Type 0}
      → Option (PrivateData R)
      → (PrivateData R → Left R A)
      → Stream R
      → Stream R × Code × Option A
  callback_on none callback stream = (stream, Code.einval, none)
  callback_on (some private) callback stream =
      if private.panicked then (stream, Code.einval, none) else written stream (callback private)

  unfoldable pub catch_callback :
      {A : Type 0} → (PrivateData R → Left R A) → Stream R → Stream R × Code × Option A
  catch_callback callback stream = callback_on stream.private_data callback stream

  -- The pointer that `get_last_error` returns: null, or to the message of an error of that status.
  unfoldable pub get_last_error : Stream R → Option Status
  get_last_error stream = elim stream.private_data [
    | none ↦ none
    | some private ↦ private.last_error
  ]

  -- The storage is reused: what it held is released first.
  abbrev pub exported : Option (PrivateData R) → Stream R → Stream R × Option (Option Status)
  exported none stream = (stream, none)
  exported (some private) stream =
      if not (is_ours stream.release) || not (private.magic == stream_magic)
      then (stream, none)
      else (
        record stream {
          private_data = some (record private { exported_error = some private.last_error });
        },
        some private.last_error,
      )

  -- Null, or the `AdbcError` with the status that is written, of which `none` is `ADBC_STATUS_OK`.
  unfoldable pub error_from_array_stream : Stream R → Stream R × Option (Option Status)
  error_from_array_stream stream = exported stream.private_data stream

  -- The private data, where there is one, is dropped.
  unfoldable pub release : Stream R → Stream R × Option (PrivateData R)
  release stream = (record { release = none; private_data = none }, stream.private_data)

module _ {R Sch Bat : Type 0} (reader : Reader R Sch Bat) where
  -- `out` is whether the output pointer is not null.
  unfoldable pub get_schema : Bool → Stream R → Stream R × Code × Option Sch
  unfolding catch_callback arrow_error
  get_schema out stream =
      catch_callback
        (λ private. if out then answered (reader.schema private.reader) private else fail private)
        stream

  abbrev pub pulled : R × Answer (Option Bat) → PrivateData R → Left R (Option Bat)
  pulled (r, answer) private = answered answer (record private { reader = r })

  abbrev pub next_batch : Bool → PrivateData R → Left R (Option Bat)
  next_batch out private = if out then pulled (reader.next private.reader) private else fail private

  unfoldable pub get_next : Bool → Stream R → Stream R × Code × Option (Option Bat)
  unfolding catch_callback arrow_error
  get_next out stream =
      catch_callback (λ private. next_batch out (record private { last_error = none })) stream
