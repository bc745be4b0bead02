-- ===== src/Samples.antt =====
-- The theorems at concrete inputs, and runs of the code that can be followed in the source.
mod Library
mod Paths
mod Documents
mod Managers
mod Services
mod Connections
mod Servers
mod Databases
mod Clients
mod Monitoring
mod Daemons
