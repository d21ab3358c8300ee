-- ===== src/Io.antt =====
-- io/: watching a directory for devices, and the redirection of a descriptor to a socket.
pub mod Redirection
pub mod DeviceWatcher
