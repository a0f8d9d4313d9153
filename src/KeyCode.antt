-- ===== src/KeyCode.antt =====
-- msdk/KeyCode.h, and the tables of msdk/AjjlKeyName.h.
mod Typing
mod Control
pub mod Vkey
pub mod Names
pub use Typing.*
pub use Control.*
