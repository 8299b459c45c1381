-- ===== src/Kubernetes.antt =====
-- internal/kubernetes: what the client reads of a cluster.
pub mod Metadata
pub mod Classes
pub mod Answers
pub mod Listed
