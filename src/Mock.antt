-- ===== src/Mock.antt =====
-- The tools that play one side of the protocol: src/bin/mock_engine.rs and src/bin/mock_manager.rs.
pub mod Wire
pub mod Engine
pub mod Manager
pub mod Exchange
