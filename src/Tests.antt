-- ===== src/Tests.antt =====
-- Concrete inputs: a library that keeps libsodium's promises, runs of the model, and an instance
-- of each theorem that has hypotheses.
mod Toy
mod Crypto
mod Session
mod Routing
mod Peer
mod Learned
mod Connect
mod Loop
mod Box
mod Main
mod Keygen
mod Config
mod Log
mod Sheet
mod Life
mod Fresh
