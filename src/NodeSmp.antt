-- ===== src/NodeSmp.antt =====
-- pow_node_smp, which samples the registers of every core and prints the metrics on the screen.
pub mod Data
pub mod Detect
pub mod Frequency
pub mod Program
pub mod Run
pub mod Main
pub mod Screen
pub mod Sensor
