-- ===== src/Examples.antt =====
-- Runs of the modelled parts on concrete inputs, with the libraries by concrete functions.
mod Connections
mod Discovery
mod Libraries
mod Storage
mod Auth
mod Gateway
mod Worker
mod Common
mod Push
mod Friends
mod Upstream
mod WsGateway
mod Messages
mod Aggregator
mod FriendEvents
