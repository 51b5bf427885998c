-- ===== src/Tests.antt =====
-- Runs of the model at concrete inputs, and each theorem at such an input.
mod Setup
mod Databases
mod Monitors
mod Checks
mod Commands
mod Operations
mod Parsing
mod Servers
mod Starts
mod Accessors
mod Daemons
mod Texts
mod Threads
mod Values
mod Whole
