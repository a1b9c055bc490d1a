-- ===== src/Watcher.antt =====
-- How files are noticed: by events of the file system, and by polling.
pub mod Events
pub mod Polling
