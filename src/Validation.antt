-- ===== src/Validation.antt =====
-- internal/domain/validation.go: the tests on what a caller asks for. `nil` is `none`.
pub mod Names
pub mod Inputs
pub mod Access
pub mod Origins
pub mod Accepted
