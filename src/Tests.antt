-- ===== src/Tests.antt =====
-- Concrete runs of the definitions, and the theorems at concrete inputs.
mod Fixtures
mod Storage
mod Search
mod Services
mod Access
mod Migrations
mod Startup
mod Routes
mod Pipeline
mod System
