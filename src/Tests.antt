-- ===== src/Tests.antt =====
-- The theorems at concrete inputs.
mod Data
mod Receiving
mod Sending
mod Wire
mod Connection
mod Pipes
mod Sessions
mod Caches
mod Buffers
mod Addresses
mod Frames
mod Tunnels
mod Matchers
mod Routes
mod Queues
