-- ===== src/Contracts.antt =====
-- models/contracts.py: document types and statuses, and the fields that extraction fills.
pub mod Documents
pub mod Fields
pub mod Extraction
