-- ===== src/Cmd/Config.antt =====
-- The flags and the configuration of internal/cmd/common.go: ParseMonitorFlags, LoadMonitorConfig,
-- ParseAndLoadConfig and GetTUFClient. The packages flag, yaml and tuf and os.ReadFile are records of
-- calls.
pub mod Loaded
pub mod Tests
use Prim.Native.String.{◌++◌ as text_append}
use rekor_monitor.Base.{
  ℕ, Bool, true, false, not, ◌&&◌, Option, none, some, Result, ok, err, msg, ◌>>=◌, ◌>>◌, context,
  fail_if, String, List, [], if◌then◌else◌,
}
use rekor_monitor.Base.Classes.{◌==◌, string_comparable}
use rekor_monitor.Base.Int.{ℤ, pos}
use rekor_monitor.Base.Text.{is_blank}
use rekor_monitor.Extensions.{OidMatchers}
use rekor_monitor.Identity.{Regexp}
use rekor_monitor.Notifications.{ConfigMonitoredValues, IdentityMonitorConfiguration}
use rekor_monitor.Notifications.Validate.{PemFiles, validate}

-- An interval is in nanoseconds.
pub record MonitorFlags : Type 0 where
  pub config_file : String
  pub config_yaml : String
  pub once : Bool
  pub log_info_file : String
  pub server_url : String
  pub interval : ℤ
  pub user_agent : String
  pub tuf_repository : String
  pub tuf_root_path : String
  pub monitor_port : ℤ
  pub ca_roots_file : String
  pub ca_intermediates_file : String
  pub https_cert_chain_file : String

-- The values of the flags that are not given.
abbrev pub default_flags : String → String → MonitorFlags
default_flags default_server_url default_tuf_repository = record {
  config_file = "";
  config_yaml = "";
  once = true;
  log_info_file = "";
  server_url = default_server_url;
  interval = pos 300_000_000_000;
  user_agent = "";
  tuf_repository = default_tuf_repository;
  tuf_root_path = "";
  monitor_port = pos 9464;
  ca_roots_file = "";
  ca_intermediates_file = "";
  https_cert_chain_file = "";
}

-- flag.Parse, given the defaults; the version, system and architecture, as they are printed; and
-- strings.TrimSpace
pub record CommandLine : Type 0 where
  pub parse : MonitorFlags → MonitorFlags
  pub platform : String
  pub trim_space : String → String

unfoldable pub parse_monitor_flags : CommandLine → String → String → String → Result MonitorFlags
parse_monitor_flags line default_server_url default_tuf_repository base_user_agent_name =
    let flags = line.parse (default_flags default_server_url default_tuf_repository) in
    let name = text_append (text_append base_user_agent_name "/") line.platform in
    let agent = line.trim_space (text_append (text_append name " ") flags.user_agent) in
    fail_if (not (is_blank flags.ca_intermediates_file) && is_blank flags.ca_roots_file)
      (msg "ca-intermediates must be used together with --ca-roots")
    >> ok (record flags { user_agent = agent })

abbrev pub no_oid_matchers : OidMatchers
no_oid_matchers = record {
  oid_extensions = [];
  fulcio_extensions = record {
    issuer = [];
    github_workflow_trigger = [];
    github_workflow_sha = [];
    github_workflow_name = [];
    github_workflow_repository = [];
    github_workflow_ref = [];
    build_signer_uri = [];
    build_signer_digest = [];
    runner_environment = [];
    source_repository_uri = [];
    source_repository_digest = [];
    source_repository_ref = [];
    source_repository_identifier = [];
    source_repository_owner_uri = [];
    source_repository_owner_identifier = [];
    build_config_uri = [];
    build_config_digest = [];
    build_trigger = [];
    run_invocation_uri = [];
    source_repository_visibility_at_signing = [];
  };
  custom_extensions = [];
}

-- `var config notifications.IdentityMonitorConfiguration`
abbrev pub zero_config : IdentityMonitorConfiguration
zero_config = record {
  start_index = none;
  end_index = none;
  monitored_values = record {
    certificate_identities = [];
    fingerprints = [];
    subjects = [];
    oid_matchers = no_oid_matchers;
  };
  output_identities_file = "";
  output_identities_format = "";
  log_info_file = "";
  identity_metadata_file = none;
  github_issue = none;
  email_notification_smtp = none;
  email_notification_mailgun = none;
  email_notification_send_grid = none;
  ca_roots_file = "";
  ca_intermediates_file = "";
}

-- os.ReadFile, and yaml.Unmarshal into a configuration
pub record Loading : Type 0 where
  pub read_file : String → Result String
  pub unmarshal : String → IdentityMonitorConfiguration → Result IdentityMonitorConfiguration

module _ (load : Loading) where
  unfoldable pub read_config_file :
      String → IdentityMonitorConfiguration → Result IdentityMonitorConfiguration
  read_config_file file config =
      if is_blank file
      then ok config
      else (context "error reading from identity monitor configuration file" (load.read_file file)
          >>= λ text. context "error parsing identities" (load.unmarshal text config))

  unfoldable pub read_config_yaml :
      String → IdentityMonitorConfiguration → Result IdentityMonitorConfiguration
  read_config_yaml yaml config =
      if is_blank yaml
      then ok config
      else context "error parsing identities" (load.unmarshal yaml config)

  abbrev pub extension_of : String → String
  extension_of format =
      if format == "text" then ".txt" else if format == "json" then ".json" else ""

  unfoldable pub with_output : String → IdentityMonitorConfiguration → IdentityMonitorConfiguration
  with_output default_file c =
      let format =
        if is_blank c.output_identities_format then "text" else c.output_identities_format in
      record c {
        output_identities_format = format;
        output_identities_file =
            if is_blank c.output_identities_file
            then text_append default_file (extension_of format)
            else c.output_identities_file;
      }

  unfoldable pub with_ca_files :
      MonitorFlags → IdentityMonitorConfiguration → IdentityMonitorConfiguration
  with_ca_files flags c = record c {
    ca_roots_file = if is_blank flags.ca_roots_file then c.ca_roots_file else flags.ca_roots_file;
    ca_intermediates_file =
        if is_blank flags.ca_intermediates_file
        then c.ca_intermediates_file
        else flags.ca_intermediates_file;
  }

  module _ (re : Regexp) (files : PemFiles) where
    unfoldable pub load_monitor_config : MonitorFlags → String → Result IdentityMonitorConfiguration
    unfolding read_config_file read_config_yaml with_output with_ca_files
    load_monitor_config flags default_output_file =
        fail_if (not (is_blank flags.config_file) && not (is_blank flags.config_yaml))
          (msg "error: only one of --config and --config-file should be specified")
        >> (read_config_file flags.config_file zero_config >>= λ from_file.
            read_config_yaml flags.config_yaml from_file >>= λ given.
            let config = with_ca_files flags (with_output default_output_file given) in
            context "invalid configuration" (validate re files config) >> ok config)

    unfoldable pub parse_and_load_config :
        CommandLine
        → String
        → String
        → String
        → String
        → Result (MonitorFlags × IdentityMonitorConfiguration)
    unfolding parse_monitor_flags load_monitor_config
    parse_and_load_config line default_server_url default_tuf_repository default_output_file name =
        parse_monitor_flags line default_server_url default_tuf_repository name >>= λ flags.
        load_monitor_config flags default_output_file >>= λ config. ok (flags, config)

-- The requests for a TUF client: tuf.DefaultClient, and tuf.New for the staging repository or for a
-- root file and a URL.
pub data TufRequest : Type 0 where
  default_client staging_client : TufRequest
  custom_client : String → String → TufRequest

unfoldable pub get_tuf_client :
    {Client : Type 0}
    → (TufRequest → Result Client)
    → (String → Result String)
    → MonitorFlags
    → Result Client
get_tuf_client request read_file flags =
    if flags.tuf_repository == "default"
    then (fail_if (not (is_blank flags.tuf_root_path))
          (msg "tuf-root-path is not supported when using the default TUF repository")
        >> request default_client)
    else if flags.tuf_repository == "staging"
    then (fail_if (not (is_blank flags.tuf_root_path))
          (msg "tuf-root-path is not supported when using the staging TUF repository")
        >> request staging_client)
    else (fail_if (is_blank flags.tuf_root_path)
          (msg "tuf-root-path is required when using a custom TUF repository")
        >> (context "failed to read TUF root path" (read_file flags.tuf_root_path) >>= λ root_bytes.
            request (custom_client root_bytes flags.tuf_repository)))
