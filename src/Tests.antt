-- ===== src/Tests.antt =====
-- One small database, and each theorem at work on it.
mod Data
mod Seats
mod System
mod Gates
mod Work
mod Making
mod Feedback
mod Reading
mod Sending
mod Lists
mod Accounts
mod Mail
