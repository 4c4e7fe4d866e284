-- ===== src/Table/Files.antt =====
-- src/fs.c, `addFile` and `delFile` on the tables.
mod Lookup
mod Guards
mod Added
mod Add
mod Delete
mod Undo
mod Pointers
pub use Lookup.{find_file-Found, find_file-none, cmp_file-cstr, cmp_file-free, entry_where-All}
pub use Guards.*
pub use Added.{fresh_blocks}
pub use Add.*
pub use Delete.*
pub use Undo.*
pub use Pointers.{entry_at-add_entry}
