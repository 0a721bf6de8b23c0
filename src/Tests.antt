-- ===== src/Tests.antt =====
-- The theorems at concrete data.
mod Gate
mod Journal
mod Fixing
mod Queries
mod Actions
mod Operations
mod Wire
mod View
mod Handlers
mod Units
mod Modules
mod Remote
mod Applet
mod Choosing
mod Fetching
