-- ===== src/Files.antt =====
-- crates/ac-files: the files of a group.
pub mod Path
pub mod Split
pub mod Inside
pub mod DirName
pub mod Parts
pub mod Clean
pub mod Sanitized
pub mod Conflict
pub mod Renamed
pub mod Marked
pub mod Conflicted
