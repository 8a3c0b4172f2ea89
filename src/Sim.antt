-- ===== src/Sim.antt =====
-- src/sim: the simulator.
pub mod Clock
pub mod Config
pub mod State
pub mod Expr
pub mod Physics
pub mod Compose
pub mod Derived
pub mod Event
pub mod Signal
pub mod Noise
pub mod Trajectory
pub mod Harness
