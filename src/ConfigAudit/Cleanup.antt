-- ===== src/ConfigAudit/Cleanup.antt =====
-- The deletion of reports that an older configuration made, in batches: reconcileConfig and
-- reconcileClusterConfig of pkg/configauditreport/controller.go, for the policies, and of
-- pkg/operator/controller/plugins_config.go, for the settings of a plugin.
pub mod Batches
pub mod ByPolicies
pub mod ByPlugin
use starboard.Prelude.{
  String, ℕ, zero, suc, Bool, List, [], ◌∷◌, if◌then◌else◌, concat, length, wrapped, Result, ok,
  err, is_not_found, wrap,
}
use starboard.Prelude
use starboard.Prelude.Int.{ℤ, pos, ltb_ℤ, ◌+ℤ◌, ◌-ℤ◌, pos_part}
use starboard.Prelude.Action.{Action, return, fail, reading, handle, ◌>>=◌, ◌>>◌}
use starboard.Constants.{label_plugin_config_hash, label_resource_kind, policies_config_map_name}
use starboard.Kube.Kind.{is_cluster_scoped_kind}
use starboard.Kube.Object.{ObjectKey}
use starboard.Kube.Server.{Outcome, done, key_of}
use starboard.Operator.Config.{Config}
use starboard.Policy.{hash}
use starboard.Vulnerability.Builder.{PluginContext}
use starboard.ConfigAudit.{ConfigAuditReport, ReportApi, AuditServer, AuditPlugin}
use starboard.ConfigAudit.Resource.{ResourceController, policies}

-- ext.MinInt
abbrev pub min_int : ℤ → ℤ → ℤ
min_int a b = if ltb_ℤ a b then a else b

-- labels.Parse, and the lists that a selector and a limit narrow, of either type of reports.
pub record Selecting (S L : Type 0) : Type 0 where
  pub parse : String → Result L
  pub list_reports : L → ℤ → S → Result (List ConfigAuditReport)
  pub list_cluster_reports : L → ℤ → S → Result (List ConfigAuditReport)

-- The text of the selector of outdated reports.
unfoldable pub outdated_selector : String → String → String
outdated_selector config_hash kind =
    concat label_plugin_config_hash
      (concat "!=" (concat config_hash (concat "," (concat label_resource_kind (concat "=" kind)))))

module _ {S : Type 0} (config : Config) where
  -- The loop: the first n of the reports are deleted, those that are gone already are passed over.
  unfoldable pub delete_first : ReportApi S → ℕ → List ConfigAuditReport → Action S (Unit {0})
  delete_first api zero reports = return tt
  delete_first api (suc n) [] = return tt
  delete_first api (suc n) (report ∷ reports) =
      let rest = delete_first api n reports in
      handle (api.delete (key_of report.meta)) (λ _. rest)
        (λ e. if is_not_found e then rest else fail (wrapped "deleting ConfigAuditReport" e))

  -- From the listed reports on.
  unfoldable pub delete_batch : ReportApi S → List ConfigAuditReport → Action S Outcome
  unfolding delete_first
  delete_batch api reports = do
    delete_first api (pos_part (min_int config.batch_delete_limit (pos (length reports)))) reports
    if ltb_ℤ (pos 0) (pos (length reports) -ℤ config.batch_delete_limit)
        then return (record { requeue_after = config.batch_delete_delay })
        else return done

  module _ {L : Type 0} (parse : String → Result L)
      (list_limited : L → ℤ → S → Result (List ConfigAuditReport)) where
    -- From the hash of the configuration on.
    unfoldable pub delete_outdated : ReportApi S → String → String → Action S Outcome
    unfolding delete_batch outdated_selector
    delete_outdated api kind config_hash = do
      selector ←
          reading (λ s. wrap "parsing label selector" (parse (outdated_selector config_hash kind)))
      reports ← reading (λ s.
          wrap "listing reports" (list_limited selector (config.batch_delete_limit +ℤ pos 1) s))
      delete_batch api reports

    -- The whole method, for a configuration whose hash is read so.
    unfoldable pub clean_up :
        AuditServer S → ReportApi S → (S → Result String) → String → ObjectKey → Action S Outcome
    unfolding delete_outdated
    clean_up server api read_hash kind key =
        handle (reading (server.get_config_map key))
          (λ cm. do config_hash ← reading read_hash; delete_outdated api kind config_hash)
          (λ e.
            if is_not_found e then return done else fail (wrapped "getting ConfigMap from cache" e))
