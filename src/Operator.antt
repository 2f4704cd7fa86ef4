-- ===== src/Operator.antt =====
-- web/src/lib/operator.ts: the settlement pipeline that runs in the operator's browser tab.
pub mod Vickrey
pub mod Settle
