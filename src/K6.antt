-- ===== src/K6.antt =====
-- The k6 bindings that have logic of their own.
pub mod CsvPool
