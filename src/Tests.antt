-- ===== src/Tests.antt =====
-- Runs of the model on small inputs, and the theorems at inputs that meet their hypotheses.
mod Wire
mod Memory
mod Streams
mod Calls
mod Direct
mod Network
mod Registry
mod Batches
mod Datagrams
mod Typed
mod Starts
