-- ===== src/Ipc.antt =====
-- kernel/ipc.c: ports, the messages queued on them and the threads that wait for one.
-- The state is what `ipc_lock` protects. A port pointer is a number that is not 0, and `ports` gives
-- the port behind it; a wait record lives on the stack of the thread that waits, which has one at a
-- time, so the thread's number stands for it. What the slab allocator returns is an argument. Log
-- lines are left out, and waking a thread is a result.
pub mod State
pub mod Lifecycle
pub mod Send
pub mod Receive
pub mod Quiet
pub mod Sleep
pub mod Interleave
pub mod Order
pub mod Waiting
mod Tests
