-- ===== src/Static.antt =====
-- src/static_files.rs: files below a root. The file system is a parameter.
pub mod Range
pub mod Mime
pub mod RangePrint
pub mod Escape
pub mod Files
pub mod Serve
pub mod Contained
pub mod Below
mod Tests
