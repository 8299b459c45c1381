-- ===== src/Platform/Reads/Methods.antt =====
-- internal/platform/service.go: the read methods, by what they are told of.
pub mod Lists
pub mod Scoped
pub mod Named
