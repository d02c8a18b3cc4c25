-- ===== src/Xilinx.antt =====
-- RULES/xilinx: bitstreams, IP blocks and boot software for Xilinx devices.
pub mod Templates
pub mod Scripts
pub mod Synthesis
pub mod Boot
pub mod Blocks
