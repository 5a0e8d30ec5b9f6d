-- ===== src/Domain/Risk.antt =====
-- src/polymarket_trader/domain/risk.py: the gate that every order intent passes before execution.
pub mod Types
pub mod Inputs
pub mod Gates
pub mod Flags
pub mod Limits
pub mod Manager
pub mod Verdict
pub mod Spec
pub mod Conditions
pub mod Ceilings
pub mod Admission
pub mod Trail
pub mod Audit
