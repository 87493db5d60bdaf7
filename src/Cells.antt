-- ===== src/Cells.antt =====
-- The slot arrays that src/stream/ring.rs and src/route/mpmc.rs have in common: `CAP` cells of
-- `MaybeUninit<T>`, reached through `cursor & MASK` with wrapping cursors.
mod Defs
mod Window
pub use Window.*
pub use Defs.{IsCap, IsWindow}
unfoldable pub use Defs.{slot_index, is_power_of_two, write_cell, read_cell}
