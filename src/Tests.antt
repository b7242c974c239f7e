-- ===== src/Tests.antt =====
-- Concrete inputs: a platform that computes, tests of the definitions and instances of the theorems.
mod Toy
mod ChainTests
mod StandingTests
mod AdmissionTests
mod PeerTests
mod SyncTests
mod UndoTests
mod StoreTests
mod PathTests
