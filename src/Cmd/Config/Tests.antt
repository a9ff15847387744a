-- ===== src/Cmd/Config/Tests.antt =====
-- A monitor that is configured by a text, with authorities that a flag names.
use rekor_monitor.Base.{refl, ok}
use rekor_monitor.Base.Classes.{string_comparable}
use rekor_monitor.Cmd.Config.{MonitorFlags, Loading, default_flags, load_monitor_config}
use rekor_monitor.Cmd.Config.Loaded.{IsLoaded, load_monitor_config-IsLoaded}
use rekor_monitor.Identity.Tests.{literal}
use rekor_monitor.Notifications.Tests.{config, files}
use rekor_monitor.Notifications.Validate.{validate}

abbrev loading : Loading
loading = record { read_file = λ f. ok f; unmarshal = λ s c. ok config }

abbrev flags : MonitorFlags
flags = record (default_flags "https://rekor" "https://tuf") {
  config_yaml = "monitoredValues";
  ca_roots_file = "roots.pem";
  tuf_root_path = "root.json";
}

load_monitor_config-IsLoaded_example :
    IsLoaded loading literal files flags "identities"
      (record config { ca_roots_file = "roots.pem" })
unfolding load_monitor_config validate
load_monitor_config-IsLoaded_example =
    load_monitor_config-IsLoaded loading literal files flags "identities"
      (record config { ca_roots_file = "roots.pem" }) refl
