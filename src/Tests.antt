-- ===== src/Tests.antt =====
-- Runs on concrete packets, and the theorems at concrete inputs.
mod Restarts
mod Goroutines
mod Data
mod Buffers
mod Reads
mod Writes
mod States
mod Notifications
mod Frames
mod Clients
mod Symbols
mod Sessions
mod Values
mod Devices
mod Subscriptions
mod Texts
mod Variables
