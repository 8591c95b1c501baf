-- ===== src/Tests/Abi.antt =====
-- Runs of the models of src/ffi: the caller's buffers, and objects before and after `Init`.
use adbc_spanner.Common.{
  ◌+◌, Done, if◌then◌else◌, ℕ, false, List, [], ◌∷◌, ◌++◌, none, some, ◌≡◌, ◌≢◌, refl, contains,
  ◌==◌, ==_iff, Result, ok, err, invalid_arguments, if◌then◌else◌, arith,
}
use adbc_spanner.Ffi.Guard.{Buffer, returns, fault, write_string, write_bytes}
use adbc_spanner.Ffi.Guard.Protocol.{Honest, writers_stay_inside, probe_then_write}
use adbc_spanner.Ffi.Handle.{Exported, Call, returned, panicked, Memory}
use adbc_spanner.Ffi.Handle.Lifecycle.{Host, Op, perform_all, created, Sound}
use adbc_spanner.Ffi.Handle.Lifecycle.Counts.{freed_with_last_reference}
use adbc_spanner.Ffi.Staged.{Key, Staged, fresh, init}
use adbc_spanner.Ffi.Staged.Replay.{
  IsDistinct, find, keys, set_all, last_call, first_calls, set_all-replay,
}

abbrev hello : List ℕ
hello = 104 ∷ 105 ∷ []

abbrev room : List ℕ
room = 1 ∷ 2 ∷ 3 ∷ 4 ∷ []

null_test :
    write_string hello (record { dst = none; len = some 3 })
    ≡ returns (record { dst = none; len = some 3 }, err invalid_arguments)
unfolding write_string
null_test = refl

no_nul_run : contains 0 hello ≡ false
unfolding contains
no_nul_run = refl

abbrev announced : Buffer
announced = record { dst = some room; len = some 4 }

announced-Honest : Honest announced
announced-Honest = record { room = λ mem n d l. ground arith }

writers_stay_inside_example :
    (write_string hello announced ≢ fault) × (write_bytes hello announced ≢ fault)
writers_stay_inside_example = writers_stay_inside hello announced announced-Honest

probe_then_write_example :
    (write_string hello (record { dst = none; len = some 0 })
      ≡ returns (record { dst = none; len = some 3 }, ok tt))
    × (write_string hello (record { dst = some (7 ∷ 8 ∷ 9 ∷ []); len = some 3 })
        ≡ returns (record { dst = some (hello ++ 0 ∷ []); len = some 3 }, ok tt))
probe_then_write_example = probe_then_write hello (7 ∷ 8 ∷ 9 ∷ []) no_nul_run refl

-- Options keyed by numbers.
abbrev number : Key ℕ
number = record { same = ◌==◌; same_iff = ==_iff }

abbrev calls : List (ℕ × ℕ)
calls = (1, 10) ∷ (2, 20) ∷ (1, 11) ∷ []

abbrev build : List (ℕ × ℕ) → Result ℕ
build [] = err invalid_arguments
build (e ∷ entries) = ok e.1

abbrev opened : Staged ℕ ℕ ℕ
opened = Staged.pending ((1, 10) ∷ [])

abbrev already : Staged ℕ ℕ ℕ
already = Staged.ready 10

set_all-replay_example :
    (find number (set_all number [] calls) 1 ≡ last_call number none calls 1)
    × (keys number (set_all number [] calls) ≡ first_calls number [] calls)
    × IsDistinct number (keys number (set_all number [] calls))
set_all-replay_example = set_all-replay number calls 1

init_run : init opened build ≡ (already, ok tt)
unfolding init
init_run = refl

init_fails : init fresh build ≡ (fresh, err invalid_arguments)
unfolding init
init_fails = refl

-- One object at the address 3, whose state is a number and whose cancel handle is a number.
abbrev counter : Exported ℕ ℕ
counter = record { refs = 1; poisoned = false; cancel = some 9; state = 0 }

abbrev memory : Memory ℕ ℕ
memory a = if a == 3 then some counter else none

abbrev increment : ℕ → Call ℕ
increment n = returned (n + 1) (ok tt)

abbrev crash : ℕ → Call ℕ
crash n = panicked (n + 5)

abbrev interrupt : ℕ → Result Done
interrupt handle = ok tt

-- A cancel that overlaps the release, and a second release.
abbrev overlap : List (Op ℕ ℕ)
overlap =
    Op.dispatched increment
    ∷ Op.cancel_taken
    ∷ Op.released
    ∷ Op.released
    ∷ Op.cancel_done interrupt
    ∷ []

abbrev empty_memory : Memory ℕ ℕ
empty_memory a = none

freed_with_last_reference_example :
    (h : Host ℕ ℕ) × (perform_all (created empty_memory 3 0 (some 9)) overlap ≡ returns h) × Sound h
freed_with_last_reference_example = freed_with_last_reference empty_memory 3 0 (some 9) overlap
