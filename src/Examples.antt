-- ===== src/Examples.antt =====
-- Runs on concrete inputs, and the theorems at such inputs.
mod Values
mod Blocks
mod Shelves
mod Texts
mod Clocks
mod Chunks
mod Sockets
mod Files
mod Names
