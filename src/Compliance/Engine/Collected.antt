-- ===== src/Compliance/Engine/Collected.antt =====
-- rules/engine.py: which checks `evaluate_compliance` collects.
use trade_sentry.Prelude.Decimal.{Decimal}
