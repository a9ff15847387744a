-- ===== src/Cmd/RekorV2/Tests.antt =====
-- A monitor whose shards are out of date.
use rekor_monitor.Base.{◌≡◌, refl, none, ok, err, msg, List, [], true, false, subst, ok_injective}
use mathlib.Core.List.{map, reverse}
use rekor_monitor.Cmd.Config.{MonitorFlags, default_flags}
use rekor_monitor.Cmd.RekorV2.{
  TufClient, Shards, refresh_signing_config, update_shards, run_consistency_check,
}
use rekor_monitor.Cmd.RekorV2.Fresh.{run_consistency_check-refreshed}
use rekor_monitor.Rekor.LogKeys.{verifier_of}
use rekor_monitor.Rekor.V2.LogVerifier.{get_log_verifier}
use rekor_monitor.Rekor.V2.LogVerifier.Tests.{fetching, loading, trusted}
use rekor_monitor.Rekor.V2.Shards.{
  Service, filter_v2_shards, origin_of, any_changed, shards_need_updating, get_rekor_shards,
}
use rekor_monitor.Rekor.V2.Shards.Reads.{distinct, origin_text}
use rekor_monitor.Rekor.V2.Shards.Tests.{calls, checks, services}
use rekor_monitor.Rekor.V2.Verifier as Verifier
use rekor_monitor.Rekor.V2.Verifier.Tests.{proving}
use rekor_monitor.Util.File.{Disk}

abbrev flags : MonitorFlags
flags = record (default_flags "https://rekor" "default") { log_info_file = "logInfo.v2.txt" }

abbrev tuf : TufClient
tuf = record { refresh = ok tt; get_signing_config = ok services; get_trusted_root = ok trusted }

-- The shards are not read yet.
abbrev no_shards : Shards
no_shards = record { rekor_shards = []; latest_shard_origin = "" }

refreshed_distinct :
    (ss : List Service)
    → refresh_signing_config tuf ≡ ok ss
    → distinct (map (origin_text calls) (filter_v2_shards reverse 30 ss)) ≡ true
unfolding refresh_signing_config filter_v2_shards origin_of
refreshed_distinct ss e =
    subst (λ l. distinct (map (origin_text calls) (filter_v2_shards reverse 30 l)) ≡ true)
      (ok_injective services ss e) refl

abbrev no_disk : Disk
no_disk = λ f. none

run_consistency_check-refreshed_example :
    (ss : List Service) × (new : Shards) × (refresh_signing_config tuf ≡ ok ss)
    × (shards_need_updating calls 30 new.rekor_shards ss ≡ ok false)
    × (Verifier.run_consistency_check proving new.rekor_shards new.latest_shard_origin
          "logInfo.v2.txt" no_disk
        ≡ ok (none, record { origin = "log2026"; size = 5; hash = "h" }))
unfolding run_consistency_check refresh_signing_config update_shards shards_need_updating
    any_changed get_rekor_shards get_log_verifier verifier_of Verifier.run_consistency_check
run_consistency_check-refreshed_example =
    run_consistency_check-refreshed proving calls fetching loading (λ c. err (msg "no file")) checks
      tuf flags 30 no_shards no_disk (none, record { origin = "log2026"; size = 5; hash = "h" })
      refreshed_distinct refl
