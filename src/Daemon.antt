-- ===== src/Daemon.antt =====
-- pkg/daemon: the Windows Instance Config Daemon, which runs on each Windows instance.
pub mod EnvVar
pub mod Cleanup
pub mod Certs
pub mod Deconfigure
pub mod Manager
pub mod Controller
pub mod Simulation
