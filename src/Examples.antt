-- ===== src/Examples.antt =====
-- Concrete inputs, at which the hypotheses of the theorems hold.
mod Jobs
mod Metering
mod Spending
mod Tenancy
mod Documents
mod Pages
mod Handling
mod Cadence
mod Ingesting
mod Display
mod Sourcing
mod Reporting
