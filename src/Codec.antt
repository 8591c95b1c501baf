-- ===== src/Codec.antt =====
-- src/conversion.rs and src/bind.rs: the text that Spanner exchanges for `NUMERIC`, `DATE` and
-- `TIMESTAMP` values, and the Arrow integers that it stands for.
pub mod Numeric
pub mod Temporal
