-- ===== src/Tests.antt =====
-- The theorems at concrete inputs, and runs that can be followed in the sources.
mod Systems
mod Paths
mod Sandbox
mod Modes
mod Streams
mod Backend
mod Client
mod Ps
mod Version2
mod Ipc
mod Navigate
mod Dialogs
mod Version1
mod Losses
mod Startup
mod Serves
mod Served
