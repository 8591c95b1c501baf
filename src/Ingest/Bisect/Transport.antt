-- ===== src/Ingest/Bisect/Transport.antt =====
-- What `write_mutation_range` of src/statement/ingest.rs writes to: Spanner's commit of a write-only
-- transaction, as a log of what was applied.
use adbc_spanner.Common.{Bool, false, List, ◌++◌, Status, cancelled, timeout, if◌then◌else◌}
use adbc_spanner.Ingest.Bisect.{Reply, accepted, too_many, refused}

-- Spanner applies a write whole or not at all. Of one that the driver dropped, by a cancel or at the
-- timeout, the commit may still land.
abbrev pub may_land : Status → Bool → Bool
may_land cancelled landed = landed
may_land timeout landed = landed
may_land _ landed = false

-- A transport with a log of the mutations that Spanner applied. `landed` is whether it applies a write
-- that is dropped.
abbrev pub remember : {V M : Type 0} → List M → List M → Bool → V × Reply → (V × List M) × Reply
remember log ms landed (v, accepted) = ((v, log ++ ms), accepted)
remember log ms landed (v, too_many) = ((v, log), too_many)
remember log ms landed (v, refused e) =
    ((v, if may_land e landed then log ++ ms else log), refused e)

abbrev pub logged :
    {V M : Type 0}
    → (V → List M → Bool)
    → (V → List M → V × Reply)
    → V × List M
    → List M
    → (V × List M) × Reply
logged landed write (v, log) ms = remember log ms (landed v ms) (write v ms)
