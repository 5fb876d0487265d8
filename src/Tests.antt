-- ===== src/Tests.antt =====
-- Runs of the model on concrete data, and the theorems applied to them.
mod Books
mod Pools
mod Queues
mod Gateways
mod Engines
mod Sequencers
mod Servers
mod Texts
mod Prints
mod Sockets
mod Histories
mod Rings
mod Responses
mod Lifetimes
mod Threads
