-- ===== src/Tests.antt =====
-- Runs of the model on small inputs, and each property applied at one.
mod Data
mod Tables
mod Contour
mod Handlers
mod Waiters
mod Pulls
mod Server
mod Traffic
mod Starts
mod Tokens
mod Documents
mod Panel
mod Runs
mod Process
mod Loads
mod Sound
mod Replicas
mod Streams
