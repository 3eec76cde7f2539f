-- ===== src/Tests.antt =====
-- The theorems at concrete inputs.
mod Samples
mod Util
mod Parser
mod Server
mod Loop
mod Messages
mod Client
mod Http
mod Exchange
mod Queries
mod Split
mod Headers
mod Memory
