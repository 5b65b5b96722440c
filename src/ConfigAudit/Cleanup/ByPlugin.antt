-- ===== src/ConfigAudit/Cleanup/ByPlugin.antt =====
-- PluginsConfigReconciler: the hash is that of the settings of the plugin.
use starboard.Prelude.{String, if◌then◌else◌, Result, wrap}
use starboard.Prelude.Action.{Action}
use starboard.Kube.Kind.{is_cluster_scoped_kind}
use starboard.Kube.Object.{ObjectKey}
use starboard.Kube.Server.{Outcome}
use starboard.Operator.Config.{Config}
use starboard.Vulnerability.Builder.{PluginContext}
use starboard.ConfigAudit.{AuditPlugin, AuditServer}
use starboard.ConfigAudit.Cleanup.{Selecting, clean_up}

pub record PluginsConfigReconciler (S : Type 0) : Type 0 where
  pub config : Config
  pub server : AuditServer S
  pub plugin_context : PluginContext
  pub plugin : AuditPlugin S

module _ {S L : Type 0} (r : PluginsConfigReconciler S) (selecting : Selecting S L) where
  plugin_hash : String → S → Result String
  plugin_hash kind s = wrap "getting config hash" (r.plugin.config_hash r.plugin_context kind s)

  unfoldable pub reconcile_config : String → ObjectKey → Action S Outcome
  unfolding plugin_hash
  reconcile_config kind key =
      clean_up r.config selecting.parse selecting.list_reports r.server r.server.reports
        (plugin_hash kind) kind key

  unfoldable pub reconcile_cluster_config : String → ObjectKey → Action S Outcome
  unfolding plugin_hash
  reconcile_cluster_config kind key =
      clean_up r.config selecting.parse selecting.list_cluster_reports r.server
        r.server.cluster_reports (plugin_hash kind) kind key

  -- Which of the two SetupWithManager registers for a kind that the plugin supports.
  unfoldable pub reconcile_kind : String → ObjectKey → Action S Outcome
  unfolding reconcile_config reconcile_cluster_config
  reconcile_kind kind =
      if is_cluster_scoped_kind kind then reconcile_cluster_config kind else reconcile_config kind
