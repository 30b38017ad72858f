-- ===== src/Userprog.antt =====
-- The user program support of userprog/: the bitmap, address spaces, the process list, system calls.
pub mod BitMap
pub mod ProcessList
pub mod Space
pub mod Placement
pub mod Loading
pub mod Syscalls
