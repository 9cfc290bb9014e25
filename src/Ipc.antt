-- ===== src/Ipc.antt =====
-- Calls between execution contexts: `sys_call`, `send_msg`, `reply` and `sys_reply` of src/syscall.cpp, over the
-- contexts of one CPU (include/ec.hpp). A caller is bound to the context that serves it by `partner`, and
-- that to the caller by `rcap`. No function returns; the value says where control goes.
pub mod State
pub mod Call
pub mod Reply
pub mod Linked
pub mod Steps
pub mod Bind
pub mod Release
pub mod Answer
pub mod Calls
pub mod Roundtrip
