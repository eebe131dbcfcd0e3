-- ===== src/Examples.antt =====
-- The theorems at concrete inputs, and runs of the code on some.
mod Fixed
mod RateLimiting
mod Symbols
mod Caching
mod Prices
mod Outages
mod Serving
mod Storing
mod Repeating
mod Wired
mod Down
mod Interleaving
mod Reviving
mod Observing
mod Ending
mod Answering
mod Stopping
