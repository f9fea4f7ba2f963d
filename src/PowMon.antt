-- ===== src/PowMon.antt =====
-- The monitor of powmon/bin, which samples the registers of every core and publishes the metrics.
pub mod Broker
pub mod Connection
pub mod Daemon
pub mod Daemonize
pub mod Data
pub mod Detect
pub mod Frequency
pub mod Message
pub mod Options
pub mod Program
pub mod Entered
pub mod Run
pub mod Sensor
pub mod Start
