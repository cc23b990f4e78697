-- ===== src/Tests.antt =====
-- Runs of the model on concrete inputs.
mod Codec
mod Recovery
mod Storage
mod Buffers
mod Nodes
mod Segments
