-- ===== src/Auth.antt =====
-- Accounts by email, of apps/api/services/auth_service.py and
-- apps/api/repository/auth_repository.py.
pub mod Tables
pub mod Action
pub mod Validation
pub mod Repository
pub mod SessionRepository
pub mod Limits
pub mod Service
pub mod SessionService
pub mod Found
pub mod Resets
pub mod Verifications
pub mod Attempts
pub mod Runs
pub mod RateBounds
pub mod Answers
pub mod Lockouts
pub mod Rows
pub mod Invariant
pub mod Masking
pub mod Promises
pub mod Registrations
pub mod Reachable
pub mod FirstSteps
pub mod Sessions
pub mod Requests
pub mod Emails
pub mod Samples
mod Tests
mod ResetTests
mod LimitTests
mod SessionTests
