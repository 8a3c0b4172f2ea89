-- ===== src/Examples.antt =====
-- Concrete inputs: floats in thousandths, a small Lua VM, and each theorem applied to them.
mod Vm
mod Evaluator
mod Policy
mod Pipeline
mod Lua
mod LuaPolicy
mod Channel
mod Monitor
mod Manager
mod Sim
mod Emitter
mod Mock
mod Meminfo
mod Gpu
mod Simulator
mod Scenario
mod External
mod Trajectory
mod Sys
mod Noise
