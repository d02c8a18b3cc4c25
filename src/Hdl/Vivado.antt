-- ===== src/Hdl/Vivado.antt =====
-- RULES/hdl/xilinx.go: the scripts for Vivado.
pub mod Scripts
pub mod Project
pub mod Export
pub mod Implementation
