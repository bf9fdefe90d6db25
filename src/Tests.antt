-- ===== src/Tests.antt =====
-- Tests of the definitions, and the theorems at concrete inputs.
mod Sample
mod ManifestTests
mod OrderTests
mod LogsTests
mod CliTests
mod ProtocolTests
mod EngineTests
mod StoreSample
mod StoreTests
mod StepTests
mod RuntimeTests
