-- ===== src/Filesys.antt =====
-- The file system of filesys/.
pub mod FileHeader
pub mod Directory
pub mod OpenFile
pub mod FileSystem
