-- ===== src/Tests.antt =====
-- Concrete runs: a toy hash, and the properties applied to small inputs.
mod Toy
mod Cents
mod AuditRuns
mod ContractRuns
mod ControlRuns
mod CostRuns
mod GateRuns
mod LoopRuns
mod TokenRuns
mod RotationRuns
mod WriterRuns
mod CorrectionRuns
mod IdentityRuns
mod RoutingRuns
