-- ===== src/Investigation.antt =====
-- The investigation: models/investigation.py, agents/ and
-- apps/api/tradesentry_api/investigation_orchestrator.py.
pub mod Model
pub mod Risk
pub mod Planner
pub mod World
pub mod Services
pub mod Calls
pub mod Completeness
pub mod Nodes
pub mod Tools
pub mod Evidence
pub mod Assessment
pub mod Graph
