-- ===== src/Circular.antt =====
-- Circular arrays, which several components of the program implement: the entries that a run of
-- positions addresses, and buffers between two wrapping positions.
pub mod Window
pub mod Layout
