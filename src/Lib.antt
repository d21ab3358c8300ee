-- ===== src/Lib.antt =====
-- mtl, the Magenta Template Library: C++ utilities for programs on the Magenta kernel, around a
-- message loop for each thread, with transfers over sockets and a watcher of device directories.
--
-- Base has what the modules share: tests, lists, finite maps with numbers for keys (std::map and the
-- heap), and code that stops at a failed FTL_CHECK or FTL_DCHECK. Magenta has statuses and signals.
--
-- Tasks is tasks/. IncomingTaskQueue is incoming_task_queue.cc, where each method is atomic, since
-- it holds mutex_; the delegate is a table of functions. MessageLoop is message_loop.cc: the state
-- has the loop, the heap of HandlerRecord and TaskRecord, and the client's state. An operation on a
-- freed or a null pointer stops, as a failed check does, so a theorem that code runs to its end also
-- says that it touches no freed record. MessageLoop.Dispatch has what the async::Loop calls; client
-- code is a tree of calls into the loop, so a handler may add and remove handlers, post tasks, and
-- quit from inside its own call. MessageLoop.Invariant has the bookkeeping that all of this keeps.
-- Platform is what tasks/ uses of async::Loop, of the clock and of operator new, with its documented
-- behaviour as named laws. The calls that the async::Loop makes are a list, in any order in which
-- each call is due at its turn. Calls from other threads reach the loop only through the queue.
--
-- Tasks.HandlerLoop is what a class that registers handlers uses of a loop, and what it relies on: a
-- loop that shuts down, where Begin fails, registers no handler, and any other loop does.
-- MessageLoop.Invariant.Registry shows that a MessageLoop provides it. Waiter, which is
-- waiter/default.cc, stands on it. A callback that a method calls last is returned.
--
-- MessageLoop.UnitTests has the handlers and the tests of message_loop_unittest.cc, which run on the
-- model, over an async::Loop that makes at most ten calls, more than any of the tests needs.
--
-- Tasks.FdWaiter is fd_waiter.cc, on an interface of mxio and of the loop's AddHandler and
-- RemoveHandler; that loop may shut down too.
--
-- Socket is socket/blocking_drain.cc and socket/strings.cc. Stream is what they use of mx::socket,
-- with the laws of a stream whose peer writes, or takes, finitely many bytes. The loops take fuel, a
-- unit for each round; a unit for each byte and for each wait to come, and one more, is enough.
--
-- Socket.Files is socket/files.cc. Its handlers are objects that ask for calls, which the platform
-- makes in any order: a schedule names the next call, and the status of a wait. Socket.Files.CopyFrom
-- is CopyFromFileHandler, whose buffer may have any size but 0; in the source it has 64 * 1024 bytes.
-- Socket.Files.CopyTo is CopyToFileHandler. What a socket has to give is all that its peer will write,
-- so bytes that arrive between two calls do not change it. In Progress the one call that is asked for
-- is made in each turn, and a turn for each byte and for each wait to come, and one more, is enough.
--
-- Socket.SocketDrainer is socket/socket_drainer.cc. The client is code over a state of its own, which
-- may destroy the drainer in each call; complete_waits completes the waits one after the other.
--
-- Io.DeviceWatcher is io/device_watcher.cc. Its scan of a message takes a unit of fuel for each
-- event; more fuel than bytes is enough. A read behind the buffer is a
-- result of its own. Create has the factory, on an interface of the system calls and the loop, and
-- Process is an instance of it for the tests.
--
-- Vfs is vfs/: the handlers of a dispatcher on the heap, and the set of them. A message is served by
-- mxrio_handler, a parameter, whose callback may add connections; it adds none when it closes.
-- Connections has what it means that they are served. A std::set is the list of its elements in order.
--
-- Vmo is vmo/vmo.cc, with the functions of vmo/strings.h and vmo/vector.h. Vmo.File is vmo/file.cc,
-- with the descriptors and handles that are open, and Vmo.SharedVmo is vmo/shared_vmo.cc, where
-- std::call_once makes the calls of several threads a sequence.
--
-- Handles is handles/object_info.cc, and Io.Redirection is io/redirection.cc. Threading is threading/:
-- the body of a thread joins an IncomingTaskQueue with the MessageLoop that it is the delegate of.
--
-- Waiter, Tasks.FdWaiter, Io.DeviceWatcher and Vfs are modelled on a thread that has a MessageLoop, so
-- the null tests of MessageLoop::GetCurrent() where they register are not there.
--
-- Not modelled: the threads themselves (std::thread and ftl::Thread are parameters); logging; task
-- observers; the memory order of accesses from several threads; a nested call of Run from a handler or
-- a task, which FTL_CHECK refuses; and destructors of closures that run code. The pointers that
-- FTL_CHECK tests for null where a function begins are not null by the types of the model.
pub mod Base
pub mod Magenta
pub mod Tasks
pub mod Socket
pub mod Io
pub mod Waiter
pub mod Vmo
pub mod Vfs
pub mod Handles
pub mod Threading
