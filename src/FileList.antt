-- ===== src/FileList.antt =====
-- scripts/check-file-list.py
pub mod Story
pub mod Changes
pub mod Audit
mod Tests
