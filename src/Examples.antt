-- ===== src/Examples.antt =====
-- The theorems at concrete inputs.
mod Transport
mod Containers
mod Functions
mod Control
mod Runtime
mod Remote
mod Tables
