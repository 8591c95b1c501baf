-- ===== src/Ffi/Guard/Protocol.antt =====
-- The size protocol of src/ffi/guard.rs: no call writes outside the caller's buffer, and a probe
-- followed by a call with the reported size delivers the value.
use adbc_spanner.Common.{
  ℕ, ◌+◌, ◌≤◌, ◌<◌, false, List, [], ◌∷◌, ◌++◌, Option, none, some, ◌≡◌, ◌≢◌, refl, ap, ◌∙◌, length,
  length-append, drop, drop-length, append-nil, contains, ok, arith, subst,
}
use adbc_spanner.Ffi.Guard.{Buffer, returns, fault, copy_to, write_string, write_bytes}

-- The caller's side: a buffer that it announces is as long as it says.
pub record Honest (b : Buffer) : Type 0 where
  pub room : (mem : List ℕ) (n : ℕ) → b.dst ≡ some mem → b.len ≡ some n → n ≤ length mem

copy_to-fits :
    (bytes mem : List ℕ)
    → length bytes ≤ length mem
    → copy_to bytes mem ≡ returns (bytes ++ drop (length bytes) mem)
unfolding copy_to
copy_to-fits [] mem h = refl
copy_to-fits (b ∷ bytes) [] h = absurd (omega arith)
copy_to-fits (b ∷ bytes) (m ∷ mem) h = rw (copy_to-fits bytes mem (omega arith)) refl

drop_all : (mem : List ℕ) (n : ℕ) → length mem ≡ n → drop n mem ≡ []
drop_all mem n e = subst (λ n. drop n mem ≡ []) e (drop-length mem)

copy_to-string :
    (value mem : List ℕ)
    → length value < length mem
    → copy_to (value ++ 0 ∷ []) mem ≡ returns ((value ++ 0 ∷ []) ++ drop (length value + 1) mem)
copy_to-string value mem h =
    subst (λ n. copy_to (value ++ 0 ∷ []) mem ≡ returns ((value ++ 0 ∷ []) ++ drop n mem))
      (length-append value (0 ∷ []))
      (copy_to-fits (value ++ 0 ∷ []) mem (omega (arith, length-append {0} value (0 ∷ []))))

-- A value with no NUL in a buffer with room for it and the terminator: both are written from the
-- start, the rest of the buffer is as it was, and the length is the size that was needed.
pub write_string-fits :
    (value mem : List ℕ) (n : ℕ)
    → contains 0 value ≡ false
    → length value < n
    → n ≤ length mem
    → write_string value (record { dst = some mem; len = some n })
      ≡ returns (
        record {
          dst = some ((value ++ 0 ∷ []) ++ drop (length value + 1) mem);
          len = some (length value + 1);
        },
        ok tt,
      )
unfolding write_string
write_string-fits value mem n c h k = ground (arith, copy_to-string value mem)

-- A buffer with less room, none at all included: the memory is as it was and the length is the size
-- that is needed.
pub write_string-probe :
    (value : List ℕ) (dst : Option (List ℕ)) (n : ℕ)
    → contains 0 value ≡ false
    → n ≤ length value
    → (dst ≡ none → n ≡ 0)
    → write_string value (record { dst = dst; len = some n })
      ≡ returns (record { dst = dst; len = some (length value + 1) }, ok tt)
unfolding write_string
write_string-probe value none n c h z = ground (arith, z refl)
write_string-probe value (some mem) n c h z = ground arith

-- Bytes in a buffer with room for them are written from the start, with no terminator.
pub write_bytes-fits :
    (value mem : List ℕ) (n : ℕ)
    → length value ≤ n
    → n ≤ length mem
    → write_bytes value (record { dst = some mem; len = some n })
      ≡ returns (
        record { dst = some (value ++ drop (length value) mem); len = some (length value) },
        ok tt,
      )
unfolding write_bytes
write_bytes-fits value mem n h k = ground (arith, copy_to-fits value mem)

-- Neither writer ever writes outside the buffer that an honest caller passes, null pointers and
-- error cases included.
pub writers_stay_inside :
    (value : List ℕ) (b : Buffer)
    → Honest b
    → (write_string value b ≢ fault) × (write_bytes value b ≢ fault)
unfolding write_string write_bytes
writers_stay_inside value b h = case b.dst b.len (h.room)
  where
    string_fault :
        (mem : List ℕ) (n : ℕ)
        → n ≤ length mem
        → write_string value (record { dst = some mem; len = some n }) ≢ fault
    string_fault mem n k e = ground (arith, copy_to-string value mem)

    bytes_fault :
        (mem : List ℕ) (n : ℕ)
        → n ≤ length mem
        → write_bytes value (record { dst = some mem; len = some n }) ≢ fault
    bytes_fault mem n k e = ground (arith, copy_to-fits value mem)

    case :
        (dst : Option (List ℕ)) (len : Option ℕ)
        → ((mem : List ℕ) (n : ℕ) → dst ≡ some mem → len ≡ some n → n ≤ length mem)
        → (write_string value (record { dst = dst; len = len }) ≢ fault)
          × (write_bytes value (record { dst = dst; len = len }) ≢ fault)
    case none none r = (λ e. ground arith, λ e. ground arith)
    case none (some n) r = (λ e. ground arith, λ e. ground arith)
    case (some mem) none r = (λ e. ground arith, λ e. ground arith)
    case (some mem) (some n) r =
        (string_fault mem n (r mem n refl refl), bytes_fault mem n (r mem n refl refl))

-- A probe with a null buffer of length 0, then a call with a buffer of the size that the probe
-- reported: the second call delivers the value and the terminator, and reports the same size.
pub probe_then_write :
    (value mem : List ℕ)
    → contains 0 value ≡ false
    → length mem ≡ length value + 1
    → (write_string value (record { dst = none; len = some 0 })
        ≡ returns (record { dst = none; len = some (length value + 1) }, ok tt))
      × (write_string value (record { dst = some mem; len = some (length value + 1) })
          ≡ returns (record { dst = some (value ++ 0 ∷ []); len = some (length value + 1) }, ok tt))
probe_then_write value mem c e = (
  write_string-probe value none 0 c (omega arith) (λ _. refl),
  write_string-fits value mem (length value + 1) c (omega arith) (omega arith)
      ∙ ap (λ l. returns (record { dst = some l; len = some (length value + 1) }, ok tt))
          (ap (λ l. (value ++ 0 ∷ []) ++ l) (drop_all mem (length value + 1) e)
            ∙ append-nil (value ++ 0 ∷ [])),
)
