-- ===== src/Http.antt =====
-- Package httptransport (internal/transport/http): the CSV import of tasks.
pub mod Csv
pub mod Import
