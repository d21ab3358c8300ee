-- ===== src/Socket.antt =====
-- socket/: blocking and asynchronous transfers over an mx::socket.
pub mod Stream
pub mod BlockingDrain
pub mod Strings
pub mod SocketDrainer
pub mod Files
pub mod Pipe
mod Tests
