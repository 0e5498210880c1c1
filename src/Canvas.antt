-- ===== src/Canvas.antt =====
-- The drawing canvas of src/pelicanbench/canvas.py: elements by their id, with undo and checkpoints.
-- The children hold the elements, the actions, and the proofs about these.
pub mod Elements
pub mod Actions
pub mod Envelope
pub mod Undo
pub mod Bounds
pub mod Clean
pub mod Safe
