-- ===== src/Hdl/Questa.antt =====
-- RULES/hdl/questa.go: builds and runs of simulations with Questa.
pub mod Flags
pub mod Compile
pub mod Optimize
pub mod Script
pub mod Arguments
pub mod Simulate
