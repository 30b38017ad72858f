-- ===== src/Userprog/Syscalls.antt =====
-- The system calls of userprog/exception.cc.
pub mod Strings
pub mod Input
pub mod Processes
