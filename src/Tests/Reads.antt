-- ===== src/Tests/Reads.antt =====
-- internal/platform/service.go at concrete states: reads of a cluster, and the methods on it.
use k8s_panel.Base.{ℕ, refl, none, [], ◌∷◌, text_dec, Text}
use k8s_panel.Domain.{Cluster, Result, ok, ClusterStatus-dec}
use k8s_panel.Governor.{try_acquire, capacity, safe_ratio}
use k8s_panel.Cache.{reconcile, get_start, expire}
use k8s_panel.Cache.Get.{get, get_rounds}
use k8s_panel.Base.Maps.{lookup}
use k8s_panel.Store.Items.{find}
use k8s_panel.Store.State.{State}
use k8s_panel.Store.File.{get_cluster}
use k8s_panel.Store.Disk.{whole, absent}
use k8s_panel.Validation.Names.{validate_namespace}
use k8s_panel.Names.{valid_dns_label}
use k8s_panel.Governor.{snapshot}
use k8s_panel.Cache.{evict_one}
use k8s_panel.Base.Maps.{delete}
use k8s_panel.Platform.{Panel, Visit, acquire_kubernetes_read, kube_gateway, gateway_for_cluster}
use k8s_panel.Platform.Reads.{Query, asks_services, admitted, read}
use k8s_panel.Platform.Reads.Serve.{serve}
use k8s_panel.Platform.Reads.Methods.Scoped.{services, optional_namespace}
use k8s_panel.Platform.Reads.Asked.{MayAsk}
use k8s_panel.Platform.Reads.Asked
use k8s_panel.Tests.Governors.{percent, governor}
use k8s_panel.Tests.Governors
use k8s_panel.Tests.Caches.{cache}
use k8s_panel.Tests.Stores.{stored}

abbrev pub fingerprint : Cluster → Text
fingerprint c = 70 ∷ []

abbrev pub panel : Panel ℕ State
panel = record {
  governor = governor;
  cache = cache;
  file = record { state = stored; disk = record { panel = whole stored; temporary = absent } };
}

abbrev pub visit : Visit ℕ State
visit = record {
  at_read = none;
  sample = Governors.busy;
  sampled_at = 6;
  at_store = none;
  at_get = none;
  rounds =
      record {
        now = 6;
        others = λ c. c;
        ended = none;
        pending = none;
        gateway = none;
        failure = none;
        later = 6;
      }
      ∷ [];
  meanwhile = λ p. p;
  during = λ p. p;
}

abbrev ask : ℕ → Query → Result ℕ
ask g q = ok g

abbrev shop : Text
shop = b'a' ∷ b'-' ∷ b'1' ∷ []

serve-MayAsk_example : MayAsk percent fingerprint ask visit (1 ∷ []) panel (asks_services shop)
unfolding serve services read admitted optional_namespace validate_namespace valid_dns_label
    acquire_kubernetes_read try_acquire snapshot capacity safe_ratio kube_gateway get_cluster find
    text_dec ClusterStatus-dec gateway_for_cluster get get_rounds get_start expire lookup reconcile
    evict_one delete
serve-MayAsk_example =
    Asked.serve-MayAsk percent fingerprint ask visit (1 ∷ []) (asks_services shop) panel 11
      (asks_services shop) refl
