-- ===== src/Core/Path.antt =====
-- crates/ussl-core/src/crdt.rs: `PathSegment` and the iterator `PathParser`.
-- The fields `path` and `pos` are read only as `&path[pos..]`, so the state is that rest of the path.
pub mod Scan
pub mod Progress
pub mod Closed
pub mod Spelling
pub use Scan.{PathSegment, key, index, segments_nil}
unfoldable pub use Scan.{next, collect, segments, run_collect, parse_digits, parse_usize}
