-- ===== src/Glib.antt =====
-- The parts of GLib that the program calls, and a model that meets what is assumed of them.
mod Defs
mod Arrays
pub mod Assoc
pub use Defs.{Glib, find_entry, keys}
unfoldable pub use Defs.{find_index, remove_index}
pub use Arrays.*
