-- ===== src/Runs.antt =====
-- Stand-ins for the crates, small configurations and sessions, and the theorems at concrete inputs.
mod StandIns
mod Config
mod Crypto
mod Codec
mod Server
mod Client
mod Proxy
mod WriteTask
mod Handshake
mod Registration
mod Acceptor
mod Pump
mod Site
mod ClientSite
mod Network
mod Wired
mod Streams
mod Main
mod Sessions
mod Ip
