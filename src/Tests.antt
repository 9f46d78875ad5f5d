-- ===== src/Tests.antt =====
-- Runs of the modelled code on small inputs, and the theorems at such inputs.
mod Calls
mod Families
mod Lists
mod Pools
mod Processes
mod Queues
mod Resources
mod Ticks
