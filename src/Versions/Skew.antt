-- ===== src/Versions/Skew.antt =====
-- internal/kubernetes/version_skew.go: the skew policy of Kubernetes.
use k8s_panel.Base.{
  ℕ, ◌+◌, ◌≡◌, Bool, true, false, ◌&&◌, ◌||◌, arith, ltb, leb, ◌==◌, if◌then◌else◌, Text,
}
use k8s_panel.Base.Int.{sub_ℕ}
use k8s_panel.Versions.{
  ComponentVersion, SkewStatus, within_policy, same_minor, upgrade_blocking, outside_policy,
  newer_than_server, major_mismatch, skew_status, maximum_minor_skew, classify_node_version,
}

-- May a kubelet of this status run with the server?
abbrev pub is_supported : SkewStatus → Bool
is_supported same_minor = true
is_supported within_policy = true
is_supported upgrade_blocking = true
is_supported outside_policy = false
is_supported newer_than_server = false
is_supported major_mismatch = false

skew_status-supported :
    (s k maximum : ℕ)
    → is_supported (skew_status (sub_ℕ s k) maximum) ≡ (leb k s && leb s (k + maximum))
unfolding skew_status
skew_status-supported s k maximum = ground arith

-- A node is supported exactly where its kubelet has the major version of the server, and a minor version that
-- is no newer and at most the maximum of that kubelet older: 2 before version 1.25, and 3 from it on.
pub classify_node_version-supported :
    (name text : Text) (server kubelet : ComponentVersion)
    → is_supported (classify_node_version name text server kubelet).status ≡ (
        server.major == kubelet.major
        && leb kubelet.minor server.minor
        && leb server.minor (
            kubelet.minor
            + (if ltb kubelet.major 1 || (kubelet.major == 1 && ltb kubelet.minor 25)
                then 2
                else 3)))
unfolding classify_node_version maximum_minor_skew
classify_node_version-supported name text server kubelet =
    ground (arith, skew_status-supported server.minor kubelet.minor (maximum_minor_skew kubelet))
