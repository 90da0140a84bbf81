-- ===== src/Tests.antt =====
-- Concrete inputs: each theorem's instance, and runs of the model.
mod Toy
mod Faithful
mod Store
mod Apps
mod Forms
mod Handling
mod Tokens
mod Calls
mod Serving
mod Starting
mod Offboarding
mod Pages
mod Onboarding
mod Syncing
