-- ===== src/Tests.antt =====
-- Runs of the modelled code on concrete inputs, and instances of the theorems.
mod Errors
mod Auth
mod Service
mod Account
mod Race
mod Series
mod Store
mod Server
mod Factory
mod Gates
mod Logger
mod Handler
mod Gateway
mod Connection
mod Config
