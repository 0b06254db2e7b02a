-- ===== src/Tests.antt =====
-- Concrete runs of the models, and the theorems at inputs that meet their hypotheses.
mod Storage
mod Chain
mod Claims
mod Gossip
mod Files
mod Dispatch
mod Downloads
mod Merkle
mod Client
mod Mining
mod Start
mod Webserver
mod Channels
