-- ===== src/Importer.antt =====
-- The bulk enrollment importer, backend/scripts/import_enrollments.py.
pub mod Inputs
pub mod Paths
pub mod Retry
pub mod Upsert
pub mod Rows
pub mod Program
mod Tests
