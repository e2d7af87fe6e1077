-- ===== src/Tests.antt =====
-- Runs at concrete inputs, and the theorems applied at inputs that meet their hypotheses.
mod Inventories
mod Observations
mod Releases
mod Collector
mod Times
mod Manifests
mod Json
mod Packages
mod Versions
