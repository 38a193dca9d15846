-- ===== src/Tests.antt =====
-- Runs of the model on concrete inputs, over buffers, connections and channels in memory.
mod Memory
mod Queues
mod Frames
mod RoundTrips
mod Links
mod Servers
mod Clients
mod Streams
mod Openings
mod Lifecycles
mod Mantainers
mod Acceptors
mod Applications
mod Errors
mod Greetings
mod Deliveries
mod Endings
mod Isolations
mod Lives
mod Wholes
