-- ===== src/Tests.antt =====
-- Concrete runs of the theorems: each is applied to small values that meet its conditions. A float
-- is a whole number there.
mod Scheduling
mod Serving
mod Copying
mod Migrating
mod Handing
mod Training
mod Sizes
mod Finishing
mod Plotting
mod Wrapping
mod Acting
mod Sharing
mod Staging
mod Starting
