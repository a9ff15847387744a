-- ===== src/Search.antt =====
-- What the identity searches of pkg/rekor/v1, pkg/rekor/v2 and pkg/ct share: they end alike, with
-- the matches written to files and grouped.
pub mod Kept
use rekor_monitor.Base.{◌≡◌, Option, none, some, Result, ok, err, panic, ◌>>=◌, ◌>>◌, List, ◌++◌}
use rekor_monitor.Base.Int.{ℤ}
use rekor_monitor.Identity.{MonitoredValues, MonitoredIdentity, LogEntry, FailedLogEntry}
use rekor_monitor.Identity.Group.{create_monitored_identities}
use rekor_monitor.Identity.Values.{create_identities_list}
use rekor_monitor.Notifications.{IdentityMonitorConfiguration}
use rekor_monitor.Util.File.{Disk, Os}
use rekor_monitor.Util.File.Identities.{Format, write_matched_identity_entries}

-- The matched and the failed entries.
abbrev pub Found : Type 0
Found = List LogEntry × List FailedLogEntry

-- What one entry adds to what was found, and what the entries after it add.
abbrev pub found_then : Result Found → Result Found → Result Found
found_then r rest = r >>= λ f. rest >>= λ g. ok (f.0 ++ g.0, f.1 ++ g.1)

abbrev pub Reported : Type 0
Reported = List MonitoredIdentity × List FailedLogEntry

-- `*p`, which panics on nil
abbrev pub deref : Option ℤ → Result ℤ
deref none = panic "nil pointer dereference"
deref (some i) = ok i

-- An index that is read is there.
pub deref-ok : (o : Option ℤ) (i : ℤ) → deref o ≡ ok i → o ≡ some i
deref-ok none i h = cc
deref-ok (some j) i h = cc

module _ (fmt : Format) (os : Os) where
  -- What was found is written to the files and grouped.
  unfoldable pub report :
      IdentityMonitorConfiguration → MonitoredValues → ℤ → Found → Disk → Result Reported × Disk
  report config mvs end found disk =
      let (written, disk') =
        write_matched_identity_entries fmt os config.output_identities_file
          config.output_identities_format found.0 config.identity_metadata_file end disk in
      (
        written >> ok (create_monitored_identities found.0 (create_identities_list mvs), found.1),
        disk',
      )

  -- The end of a search, once the end of its range and what is found in it are known.
  abbrev pub report_found :
      Result (ℤ × Found)
      → IdentityMonitorConfiguration
      → MonitoredValues
      → Disk
      → Result Reported × Disk
  report_found (ok x) config mvs disk = report config mvs x.0 x.1 disk
  report_found (err e) config mvs disk = (err e, disk)
  report_found (panic p) config mvs disk = (panic p, disk)
