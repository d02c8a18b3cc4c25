-- ===== src/Hdl.antt =====
-- RULES/hdl: simulations and implementations of FPGA designs.
pub mod Unique
pub mod Files
pub mod Ip
pub mod Xci
pub mod Templates
pub mod Settings
pub mod Simulation
pub mod Vivado
pub mod Questa
pub mod Xsim
pub mod Build
