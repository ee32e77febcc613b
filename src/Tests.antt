-- ===== src/Tests.antt =====
-- Runs at concrete inputs, and the theorems at inputs that meet their hypotheses.
mod StorageTests
mod BusTests
mod Thousandths
mod LearningTests
mod StagesTests
mod RetryTests
mod BackendTests
mod EngineTests
mod ChatTests
mod MemoryTests
mod CacheTests
mod ContextTests
mod TokensTests
mod ToolsTests
mod WeaverTests
