-- ===== src/Watcher.antt =====
-- The file watcher (src/watcher): the queue that serialises work per path, the rows of a file, the keys
-- of its sections.
pub mod Queue
pub mod Sync
pub mod Chunking
