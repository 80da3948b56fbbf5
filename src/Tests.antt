-- ===== src/Tests.antt =====
-- Concrete inputs: the theorems at them, with the parameter for encoding/json instantiated.
mod Identifiers
mod Flights
mod Lanes
mod Messages
mod Resumes
mod Queues
mod Pictures
mod Toy
mod Runs
mod Clients
mod Pieces
mod Stores
mod Servers
mod Snapshots
