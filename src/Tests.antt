-- ===== src/Tests.antt =====
-- Concrete inputs, and the theorems at them.
mod LoopTests
mod ActuatorTests
mod CrashTests
mod JournalTests
mod TraceTests
mod SharedTests
mod TextsTests
mod MetricsTests
mod HealthTests
mod FailoverTests
mod ObserverTests
mod WebhookTests
mod LambdaTests
mod ProbesTests
mod ObslogTests
mod TlsTests
mod StartupTests
mod SystemTests
