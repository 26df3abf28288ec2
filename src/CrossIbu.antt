-- ===== src/CrossIbu.antt =====
-- The cross-IBU registry and matcher: cross_ibu/, models/cross_ibu.py and the in-memory registry of
-- apps/api/tradesentry_api/cross_ibu_registry.py.
pub mod Model
pub mod Matcher
pub mod Match
pub mod Registry
