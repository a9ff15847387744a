-- ===== src/Search/Kept.antt =====
-- The report of a search leaves a file alone that is not one of those that it writes.
use rekor_monitor.Base.{◌≡◌, refl, false, Result, ok, err, panic, String}
use rekor_monitor.Base.Classes.{◌==◌, string_comparable}
use rekor_monitor.Base.Int.{ℤ}
use rekor_monitor.Identity.{MonitoredValues}
use rekor_monitor.Notifications.{IdentityMonitorConfiguration}
use rekor_monitor.Search.{Found, report, report_found}
use rekor_monitor.Util.File.{Disk, Os}
use rekor_monitor.Util.File.Identities.{Format}
use rekor_monitor.Util.File.Kept.{Apart, write_matched_identity_entries-kept}

-- The files that a search writes are not this one.
pub record HasOwnFile (name : String) (config : IdentityMonitorConfiguration) : Type 0 where
  pub from_identities : (name == config.output_identities_file) ≡ false
  pub from_metadata : Apart name config.identity_metadata_file

pub report_found-kept :
    (fmt : Format) (os : Os) (name : String) (r : Result (ℤ × Found))
    (config : IdentityMonitorConfiguration) (values : MonitoredValues) (disk : Disk)
    → HasOwnFile name config
    → (report_found fmt os r config values disk).1 name ≡ disk name
unfolding report
report_found-kept fmt os name (ok x) config values disk own =
    write_matched_identity_entries-kept fmt os name config.output_identities_file
      config.output_identities_format x.1.0 config.identity_metadata_file x.0 disk
      own.from_identities own.from_metadata
report_found-kept fmt os name (err e) config values disk own = refl
report_found-kept fmt os name (panic p) config values disk own = refl

-- It depends on the names of the files alone.
pub HasOwnFile-same :
    (name : String) (config given : IdentityMonitorConfiguration)
    → HasOwnFile name config
    → (given.output_identities_file ≡ config.output_identities_file)
      × (given.identity_metadata_file ≡ config.identity_metadata_file)
    → HasOwnFile name given
HasOwnFile-same name config given own same = record {
  from_identities = rw same.0 own.from_identities;
  from_metadata = rw same.1 own.from_metadata;
}
