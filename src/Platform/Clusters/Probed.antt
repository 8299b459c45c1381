-- ===== src/Platform/Clusters/Probed.antt =====
-- internal/platform/service.go: what a test of the connection stores.
use k8s_panel.Store.State.{State}
