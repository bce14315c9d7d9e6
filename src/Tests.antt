-- ===== src/Tests.antt =====
-- Concrete inputs at which the theorems apply.
mod RingTests
mod PoolTests
mod SpscTests
mod MapTests
mod BitsetTests
mod HeapTests
mod VectorTests
mod ListTests
mod HashTests
mod ObjectTests
