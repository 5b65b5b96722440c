-- ===== src/ConfigAudit/Cleanup/ByPolicies.antt =====
-- reconcileConfig and reconcileClusterConfig of ResourceController: the hash is that of the policies.
use starboard.Prelude.{String, Result, wrap, ◌>>=◌}
use starboard.Prelude.Action.{Action}
use starboard.Kube.Object.{ObjectKey}
use starboard.Kube.Server.{Outcome}
use starboard.Policy.{hash}
use starboard.ConfigAudit.Resource.{ResourceController, policies}
use starboard.ConfigAudit.Cleanup.{Selecting, clean_up}

module _ {S Module Compiler L : Type 0} (r : ResourceController S Module Compiler)
    (selecting : Selecting S L) where
  policies_hash : String → S → Result String
  policies_hash kind s = do
    source ← wrap "getting policies" (policies r s)
    wrap "getting config hash" (hash r.compute_hash source kind)

  unfoldable pub reconcile_config : String → ObjectKey → Action S Outcome
  unfolding policies_hash
  reconcile_config kind key =
      clean_up r.config selecting.parse selecting.list_reports r.server r.server.reports
        (policies_hash kind) kind key

  unfoldable pub reconcile_cluster_config : String → ObjectKey → Action S Outcome
  unfolding policies_hash
  reconcile_cluster_config kind key =
      clean_up r.config selecting.parse selecting.list_cluster_reports r.server
        r.server.cluster_reports (policies_hash kind) kind key
