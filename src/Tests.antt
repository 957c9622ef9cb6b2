-- ===== src/Tests.antt =====
-- Concrete inputs, runs of the definitions on them, and each theorem at an input that meets its
-- hypotheses.
mod Data
mod Orders
mod Books
mod Risks
mod Queues
mod Pools
mod Pushes
mod Latencies
mod Messages
mod Sockets
mod Reports
mod Measures
mod Markets
