-- ===== src/Compliance.antt =====
-- The deterministic UCP 600 engine: rules/engine.py and rules/checks.py over models/compliance.py.
pub mod Model
pub mod Finding
pub mod Consistency
pub mod Amounts
pub mod Period
pub mod Papers
pub mod Completeness
pub mod CrossDocument
pub mod Engine
