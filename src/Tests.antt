-- ===== src/Tests.antt =====
-- Runs of the model on small inputs, and the theorems at inputs that meet their hypotheses.
pub mod Data
mod Source
mod Game
mod Play
mod Session
mod Bytes
pub mod Wire
pub mod Screen
pub mod Frame
mod World
mod Table
mod Opening
mod Senders
mod Network
mod Rounds
mod Broker
