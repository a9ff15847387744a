-- ===== src/Cmd/Exits.antt =====
-- How a monitor's program ends, and the set-up that the monitors share: an exit code that is returned
-- to main, log.Fatal, or a panic, and what the loop did, if it was reached.
use rekor_monitor.Base.{
  ℕ, Option, none, some, Error, Result, ok, err, panic, ◌>>=◌, String, if◌then◌else◌,
}
use rekor_monitor.Base.Text.{is_blank}
use rekor_monitor.Cmd.Loop.{Outcome}
use rekor_monitor.Extensions.Identifiers.{Numerals}
use rekor_monitor.Extensions.Matchers.{render_oid_matchers}
use rekor_monitor.Identity.{MonitoredValues}
use rekor_monitor.Notifications.{ConfigMonitoredValues}
use rekor_monitor.Util.File.{Disk}
use rekor_monitor.Util.Tls.{TlsConfig}

pub data Exit : Type 0 where
  exited : ℕ → Exit
  fatal : Error → Exit
  panicked : String → Exit

abbrev pub Ended : Type 0
Ended = Exit × Option Outcome

-- The disk when the program ends: the loop may have changed it.
abbrev pub disk_after : Ended → Disk → Disk
disk_after (exit, none) disk = disk
disk_after (exit, some out) disk = out.2.disk

-- `if err != nil { log.Printf(…); return 1 }`, and `if err != nil { log.Fatal(err) }`
abbrev pub or_exit : {A : Type 0} → Result A → (A → Ended) → Ended
or_exit (ok a) next = next a
or_exit (err e) next = (exited 1, none)
or_exit (panic p) next = (panicked p, none)

abbrev pub or_fatal : {A : Type 0} → Result A → (A → Ended) → Ended
or_fatal (ok a) next = next a
or_fatal (err e) next = (fatal e, none)
or_fatal (panic p) next = (panicked p, none)

-- The TLS configuration, if a file of certificates is named.
abbrev pub optional_tls : (String → Result TlsConfig) → String → Result (Option TlsConfig)
optional_tls tls_config_for_ca file =
    if is_blank file then ok none else (tls_config_for_ca file >>= λ c. ok (some c))

-- What a Rekor monitor looks for: the configured values, their OID matchers rendered.
unfoldable pub rekor_monitored_values : Numerals → ConfigMonitoredValues → Result MonitoredValues
rekor_monitored_values num values = render_oid_matchers num values.oid_matchers >>= λ all.
    ok (record {
      certificate_identities = values.certificate_identities;
      fingerprints = values.fingerprints;
      subjects = values.subjects;
      oid_matchers = all;
    })

-- `flags.LogInfoFile`, where a missing name is replaced.
abbrev pub or_default : String → String → String
or_default default file = if is_blank file then default else file
