-- ===== src/Tests.antt =====
-- Runs of the definitions on concrete data, and the theorems at concrete data.
mod Lists
mod Tables
mod Threads
mod Clients
mod Logs
mod Files
mod Plugins
mod Consoles
mod Starts
