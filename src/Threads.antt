-- ===== src/Threads.antt =====
pub mod Sequence
pub mod LinkedList
pub mod Kernel
pub mod Philosophers
pub mod PostOffice
pub mod BusyWait
