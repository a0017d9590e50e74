-- ===== src/Tree.antt =====
-- dir_code/file_count.c: counting the regular files of a directory tree.
pub mod Count
mod Tests
