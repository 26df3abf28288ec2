-- ===== src/Tests.antt =====
-- The theorems at concrete inputs.
pub mod Api
pub mod Data
pub mod Compliance
pub mod Matching
pub mod Investigation
pub mod Dna
pub mod Review
pub mod Fraud
pub mod Intake
pub mod Prototype
