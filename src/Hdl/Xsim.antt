-- ===== src/Hdl/Xsim.antt =====
-- RULES/hdl/xsim.go: builds and runs of simulations with the Vivado simulator.
pub mod Script
pub mod Project
pub mod Elaborate
pub mod Simulate
