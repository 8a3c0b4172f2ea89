-- ===== src/Monitor.antt =====
-- src/monitor: the threads that read the system. One turn of a monitor's loop is a function from
-- the monitor and what its reading gave to the monitor and the signal that it sends; `W` is `f64`.
pub mod Memory
pub mod Thermal
pub mod Compute
pub mod Energy
pub mod Gpu
pub mod External
