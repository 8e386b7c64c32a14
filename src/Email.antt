-- ===== src/Email.antt =====
-- Email verification: backend/src/services/emailVerificationStore.ts and its service.
pub mod Data
pub mod Rates
pub mod Cleanup
pub mod Store
pub mod Service
pub mod Tests
