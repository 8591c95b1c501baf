-- ===== src/Ffi/Stream/Reports.antt =====
-- Which error a stream reports after any callbacks: src/ffi/stream.rs.
use adbc_spanner.Common.{
  Bool, true, false, List, [], ◌∷◌, Option, none, some, if◌then◌else◌, Status, invalid_arguments,
  invalid_state, invalid_data, not_found, not_implemented, already_exists, internal, cancelled,
  timeout, io, unauthenticated, unauthorized, unknown, integrity, okay, ◌≡◌, refl, ap,
}
use adbc_spanner.Ffi.Stream.{
  Code, Reader, PrivateData, Stream, Callback, Answer, ArrowVariant, stream_magic, export_reader,
  get_schema, get_next, get_last_error, error_from_array_stream, catch_callback, arrow_error,
  ranked, answered, written, adbc_status_to_errno,
}

-- What the host calls on a stream, with whether the output pointer is there.
pub data Op : Type 0 where
  schema_op next_op : Bool → Op
  last_error_op structured_op : Op

abbrev pub is_success : Code → Bool
is_success Code.success = true
is_success _ = false

-- What a call that succeeded leaves of an error that was pending.
abbrev pub kept : Op → Bool → Bool
kept (Op.next_op out) pending = false
kept op pending = pending

-- Whether an error is pending after a call that returned `code`.
abbrev pub pending_after : Op → Code → Bool → Bool
pending_after op code pending = if is_success code then kept op pending else true

abbrev pub is_some : {A : Type 0} → Option A → Bool
is_some none = false
is_some (some a) = true

abbrev code_of : {R A : Type 0} → Stream R × Code × A → Stream R × Code
code_of (stream, code, out) = (stream, code)

module _ {R Sch Bat : Type 0} (reader : Reader R Sch Bat) where
  unfoldable pub made : Op → Stream R → Stream R × Code
  unfolding get_schema get_next get_last_error error_from_array_stream
  made (Op.schema_op out) stream = code_of (get_schema reader out stream)
  made (Op.next_op out) stream = code_of (get_next reader out stream)
  made Op.last_error_op stream = (stream, Code.success)
  made Op.structured_op stream = ((error_from_array_stream stream).0, Code.success)

  -- The calls in order, and whether an error is pending by the codes that they returned.
  unfoldable pub made_all : List Op → Stream R → Bool → Stream R × Bool
  unfolding made
  made_all [] stream pending = (stream, pending)
  made_all (op ∷ ops) stream pending =
      made_all ops (made op stream).0 (pending_after op (made op stream).1 pending)

module _ {R : Type 0} where
  abbrev private_of : R → Option Status → Option (Option Status) → Bool → PrivateData R
  private_of r last_error exported_error panicked = record {
    magic = stream_magic;
    reader = r;
    last_error = last_error;
    exported_error = exported_error;
    panicked = panicked;
  }

  abbrev stream_of : PrivateData R → Stream R
  stream_of private = record { release = some Callback.ours; private_data = some private }

  -- A stream of this module whose pending error is known; one that panicked has one.
  data Kept : Stream R → Bool → Type 0 where
    calm :
        (r : R) (l : Option Status) (e : Option (Option Status)) (pending : Bool)
        → is_some l ≡ pending
        → Kept (stream_of (private_of r l e false)) pending
    poisoned :
        (r : R) (s : Status) (e : Option (Option Status))
        → Kept (stream_of (private_of r (some s) e true)) true

ranked_fails :
    (variant : ArrowVariant) (embedded : Option Status)
    → is_success (ranked variant embedded).0 ≡ false
unfolding ranked adbc_status_to_errno
ranked_fails ArrowVariant.not_yet_implemented none = refl
ranked_fails ArrowVariant.memory_error none = refl
ranked_fails ArrowVariant.io_error none = refl
ranked_fails ArrowVariant.another none = refl
ranked_fails variant (some s) = errno_fails s
  where
    errno_fails : (s : Status) → is_success (adbc_status_to_errno s) ≡ false
    errno_fails invalid_arguments = refl
    errno_fails invalid_state = refl
    errno_fails invalid_data = refl
    errno_fails not_found = refl
    errno_fails not_implemented = refl
    errno_fails already_exists = refl
    errno_fails internal = refl
    errno_fails cancelled = refl
    errno_fails timeout = refl
    errno_fails io = refl
    errno_fails unauthenticated = refl
    errno_fails unauthorized = refl
    errno_fails unknown = refl
    errno_fails integrity = refl
    errno_fails okay = refl

module _ {R : Type 0} where
  -- A callback that ended in an answer of the reader, where success leaves no error or the one there was.
  answered-Kept :
      {A : Type 0} (answer : Answer A) (r : R) (l : Option Status) (e : Option (Option Status))
      (rest : Bool)
      → is_some l ≡ rest
      → Kept
          (written
            (stream_of (private_of r l e false))
            (answered answer (private_of r l e false))).0
          (if is_success
              (written
                (stream_of (private_of r l e false))
                (answered answer (private_of r l e false))).1
            then rest
            else true)
  unfolding arrow_error
  answered-Kept (Answer.gives a) r l e rest h = Kept.calm r l e rest h
  answered-Kept (Answer.fails error) r l e rest h =
      rw (ranked_fails error.variant error.embedded)
        (Kept.calm r (some (ranked error.variant error.embedded).1) e true refl)
  answered-Kept Answer.panics r l e rest h = Kept.poisoned r internal e

module _ {R Sch Bat : Type 0} (reader : Reader R Sch Bat) where
  made-Kept :
      (op : Op) (stream : Stream R) (pending : Bool)
      → Kept stream pending
      → Kept (made reader op stream).0 (pending_after op (made reader op stream).1 pending)
  unfolding made get_schema get_next get_last_error error_from_array_stream catch_callback
  made-Kept (Op.schema_op true) _ _ (Kept.calm r l e p h) =
      answered-Kept (reader.schema r) r l e p h
  made-Kept (Op.schema_op false) _ _ (Kept.calm r l e p h) =
      Kept.calm r (some invalid_arguments) e true refl
  made-Kept (Op.next_op true) _ _ (Kept.calm r l e p h) =
      answered-Kept (reader.next r).1 (reader.next r).0 none e false refl
  made-Kept (Op.next_op false) _ _ (Kept.calm r l e p h) =
      Kept.calm r (some invalid_arguments) e true refl
  made-Kept Op.last_error_op _ _ (Kept.calm r l e p h) = Kept.calm r l e p h
  made-Kept Op.structured_op _ _ (Kept.calm r l e p h) = Kept.calm r l (some l) p h
  made-Kept (Op.schema_op out) _ _ (Kept.poisoned r s e) = Kept.poisoned r s e
  made-Kept (Op.next_op out) _ _ (Kept.poisoned r s e) = Kept.poisoned r s e
  made-Kept Op.last_error_op _ _ (Kept.poisoned r s e) = Kept.poisoned r s e
  made-Kept Op.structured_op _ _ (Kept.poisoned r s e) = Kept.poisoned r s (some (some s))

  made_all-Kept :
      (ops : List Op) (stream : Stream R) (pending : Bool)
      → Kept stream pending
      → Kept (made_all reader ops stream pending).0 (made_all reader ops stream pending).1
  unfolding made_all
  made_all-Kept [] stream pending h = h
  made_all-Kept (op ∷ ops) stream pending h =
      made_all-Kept ops (made reader op stream).0
        (pending_after op (made reader op stream).1 pending) (made-Kept op stream pending h)

abbrev pub is_reported : Option (Option Status) → Option Bool
is_reported none = none
is_reported (some status) = some (is_some status)

module _ {R : Type 0} where
  Kept-reported :
      (stream : Stream R) (pending : Bool)
      → Kept stream pending
      → (is_reported (error_from_array_stream stream).1 ≡ some pending)
        × (is_some (get_last_error stream) ≡ pending)
  unfolding error_from_array_stream get_last_error
  Kept-reported _ _ (Kept.calm r l e p h) = (ap some h, h)
  Kept-reported _ _ (Kept.poisoned r s e) = (refl, refl)

module _ {R Sch Bat : Type 0} (reader : Reader R Sch Bat) where
  -- After any calls of the host on a stream of this module, its release aside, the structured error and the
  -- message are there exactly where a callback has returned an errno since the last `get_next` that
  -- returned 0, whatever the reader gives, fails with or panics.
  pub errors_reported :
      (ops : List Op) (r : R)
      → (is_reported (error_from_array_stream (made_all reader ops (export_reader r) false).0).1
          ≡ some (made_all reader ops (export_reader r) false).1)
        × (is_some (get_last_error (made_all reader ops (export_reader r) false).0)
            ≡ (made_all reader ops (export_reader r) false).1)
  unfolding export_reader
  errors_reported ops r =
      Kept-reported (made_all reader ops (export_reader r) false).0
        (made_all reader ops (export_reader r) false).1
        (made_all-Kept reader ops (export_reader r) false (Kept.calm r none none false refl))
