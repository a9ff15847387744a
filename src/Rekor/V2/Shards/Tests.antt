-- ===== src/Rekor/V2/Shards/Tests.antt =====
-- Two shards, the newer one first in the signing configuration, and a service of the old API.
use mathlib.Core.List.{reverse, Perm, reverse_perm, Pairwise-pair}
use native.Mathlib.Bridge.{le_prop}
use rekor_monitor.Base.{
  ℕ, ◌≡◌, ◌↔◌, refl, false, ok, err, msg, String, List, [], ◌∷◌, keep, length, is_empty, arith, All,
}
use rekor_monitor.Rekor.LogKeys.{verifier_of}
use rekor_monitor.Rekor.V2.Client.{ReadClient, ShardInfo}
use rekor_monitor.Rekor.V2.LogVerifier.{get_log_verifier}
use rekor_monitor.Rekor.V2.LogVerifier.Tests.{fetching, loading, trusted}
use rekor_monitor.Rekor.V2.Shards.{
  Service, Services, filter_v2_shards, shards_need_updating, get_rekor_shards,
}
use rekor_monitor.Rekor.V2.Shards.Order.{started_v2, NewestFirst, filter_v2_shards-NewestFirst}
use rekor_monitor.Rekor.V2.Shards.Updates.{IsCurrent, shard_origin, shards_need_updating_iff}
use rekor_monitor.Rekor.V2.Shards.Reads.{ChecksOrigin}
use rekor_monitor.Rekor.V2.Shards.Fresh.{get_rekor_shards-IsCurrent}

abbrev service : String → ℕ → Service
service url start = record {
  url = url;
  major_api_version = 2;
  validity_start = start;
  validity_end = 0;
}

abbrev pub services : List Service
services = service "https://log2026" 20 ∷ service "https://log2025" 10 ∷ []

abbrev pub reader : String → ReadClient
reader origin = record {
  read_checkpoint = ok (record { origin = origin; size = 5; hash = "h" });
  read_entry_bundle = λ t p. err (msg "not asked");
  read_tile = λ l t p. err (msg "not asked");
}

abbrev pub calls : Services
calls = record {
  sort_func = reverse;
  parse_url = λ u. ok (record { scheme = "https"; text = u });
  new_reader = λ url origin verifier agent tls. ok (reader origin);
}

filter_v2_shards-NewestFirst_example :
    Perm (filter_v2_shards reverse 30 services) (keep (started_v2 30) services)
    × NewestFirst (filter_v2_shards reverse 30 services)
filter_v2_shards-NewestFirst_example =
    filter_v2_shards-NewestFirst reverse 30 services
      (reverse_perm services, (Pairwise-pair (λ a b. le_prop)).1 (omega arith))

pub checks : ChecksOrigin calls
checks url origin verifier agent tls c made cp got = ground (arith, made, got)

shards_need_updating_iff_example : (shards_need_updating calls 30 [] services ≡ ok false) ↔ (
    (is_empty (filter_v2_shards reverse 30 services) ≡ false)
    × (0 ≡ length (filter_v2_shards reverse 30 services))
    × All (IsCurrent calls []) (filter_v2_shards reverse 30 services))
shards_need_updating_iff_example = shards_need_updating_iff calls 30 [] services

abbrev info : String → ShardInfo
info origin = record { client = reader origin; verifier = "key"; validity_end = 0 }

abbrev read : List (String × ShardInfo)
read = ("log2026", info "log2026") ∷ ("log2025", info "log2025") ∷ []

get_rekor_shards-IsCurrent_example :
    (shards_need_updating calls 30 read services ≡ ok false)
    × (s : Service) × (ss : List Service) × (filter_v2_shards reverse 30 services ≡ s ∷ ss)
    × (shard_origin calls s ≡ ok "log2026")
unfolding get_rekor_shards get_log_verifier verifier_of
get_rekor_shards-IsCurrent_example =
    get_rekor_shards-IsCurrent calls fetching loading (λ c. err (msg "no file")) 30 trusted services
      "monitor" "" (read, "log2026") checks refl refl
