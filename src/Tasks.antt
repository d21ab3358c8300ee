-- ===== src/Tasks.antt =====
-- tasks/: the queue of incoming tasks, the message loop and its clients.
pub mod IncomingTaskQueue
pub mod Platform
pub mod HandlerLoop
pub mod FdWaiter
pub mod MessageLoop
