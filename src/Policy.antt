-- ===== src/Policy.antt =====
-- src/policy/common: the state that the policy keeps between signals.
pub mod State
