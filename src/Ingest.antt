-- ===== src/Ingest.antt =====
-- From scanner records to findings (hardening_loop/ingest/records.py,
-- hardening_loop/ingest/normalize.py).
pub mod Records
pub mod Normalized
pub mod Merge
pub mod Laws
