-- ===== src/Audit.antt =====
-- The audit subsystem (codeatelier_governance/audit).
pub mod Crypto
pub mod Models
pub mod Chain
pub mod Store
pub mod Log
pub mod Emit
pub mod Event
pub mod Keys
pub mod Rotation
pub mod Writer
pub mod Corrections
