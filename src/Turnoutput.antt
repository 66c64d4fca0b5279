-- ===== src/Turnoutput.antt =====
-- Package turnoutput: one session's events folded into one Output per completed turn.
pub mod Output
pub mod Turn
pub mod Blocks
pub mod Tools
pub mod Signals
pub mod Reducer
pub mod Report
pub mod Closing
pub mod Feed
pub mod Safety
