-- ===== src/Notifications/Tests.antt =====
-- A configuration of a monitor, and the files that it names.
use rekor_monitor.Base.{none, some, ok, [], ◌∷◌, true}
use rekor_monitor.Base.Int.{pos}
use rekor_monitor.Notifications.{IdentityMonitorConfiguration}
use rekor_monitor.Notifications.Validate.{PemFiles}

abbrev pub files : PemFiles
files = record { stat = λ f. none; read = λ f. ok f; has_pem_block = λ b. true }

abbrev pub config : IdentityMonitorConfiguration
config = record {
  start_index = some (pos 3);
  end_index = none;
  monitored_values = record {
    certificate_identities =
        record { cert_subject = "alice@example.com"; issuers = "https://issuer" ∷ [] } ∷ [];
    fingerprints = [];
    subjects = "bob" ∷ [];
    oid_matchers = record {
      oid_extensions = [];
      fulcio_extensions = record {
        issuer = [];
        github_workflow_trigger = [];
        github_workflow_sha = [];
        github_workflow_name = [];
        github_workflow_repository = [];
        github_workflow_ref = [];
        build_signer_uri = [];
        build_signer_digest = [];
        runner_environment = [];
        source_repository_uri = [];
        source_repository_digest = [];
        source_repository_ref = [];
        source_repository_identifier = [];
        source_repository_owner_uri = [];
        source_repository_owner_identifier = [];
        build_config_uri = [];
        build_config_digest = [];
        build_trigger = [];
        run_invocation_uri = [];
        source_repository_visibility_at_signing = [];
      };
      custom_extensions = [];
    };
  };
  output_identities_file = "identities.txt";
  output_identities_format = "text";
  log_info_file = "log_info.txt";
  identity_metadata_file = none;
  github_issue = none;
  email_notification_smtp = none;
  email_notification_mailgun = none;
  email_notification_send_grid = none;
  ca_roots_file = "roots.pem";
  ca_intermediates_file = "";
}
