-- ===== src/Tests.antt =====
-- The main theorems at concrete inputs.
mod Wire
mod Objects
mod Requests
mod Stores
mod Data
mod Nodes
