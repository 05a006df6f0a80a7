-- ===== src/Sftplibs.antt =====
-- sftplibs/: connections, time limits and temporary files, for all workers.
pub mod Connect
pub mod Timeout
pub mod Tempfile
