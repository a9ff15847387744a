-- ===== src/Rekor/V2/Shards.antt =====
-- The shards of Rekor v2 in pkg/rekor/v2/client.go: which services of the signing configuration are
-- shards, the map from their origins to clients, and when it is out of date.
pub mod Order
pub mod Updates
pub mod Reads
pub mod Fresh
pub mod Tests
use Prim.Native.String.{count}
use mathlib.Core.List.{reverse}
use rekor_monitor.Base.{
  ℕ, zero, suc, ◌+◌, Bool, true, false, not, ◌&&◌, Option, none, some, Error, Result, ok, err,
  panic, msg, ◌>>=◌, ◌>>◌, context, fail_if, String, List, [], ◌∷◌, keep, length, is_empty, leb,
  ltb, if◌then◌else◌,
}
use rekor_monitor.Base.Classes.{◌==◌, string_comparable, nat_comparable}
use rekor_monitor.Base.Maps.{find, put}
use rekor_monitor.Base.Text.{is_blank, text_drop}
use rekor_monitor.Rekor.LogKeys.{TransparencyLog, KeyLoading}
use rekor_monitor.Rekor.V2.Client.{Checkpoint, ReadClient, ShardInfo}
use rekor_monitor.Rekor.V2.LogVerifier.{Url, Fetching, get_log_verifier}
use rekor_monitor.Util.Tls.{TlsConfig}

-- root.Service. A time is the nanoseconds since the zero time.
pub record Service : Type 0 where
  pub url : String
  pub major_api_version : ℕ
  pub validity_start : ℕ
  pub validity_end : ℕ

-- A v2 service whose validity has started.
abbrev pub is_shard : ℕ → Service → Bool
is_shard now s =
    s.major_api_version == 2 && (not (s.validity_start == 0) && ltb s.validity_start now)

-- slices.SortFunc by the start of the validity is an argument: it leaves open the order of services
-- that start at the same time.
unfoldable pub filter_v2_shards : (List Service → List Service) → ℕ → List Service → List Service
filter_v2_shards sort_func now services = keep (is_shard now) (reverse (sort_func services))

unfoldable pub get_origin : Url → Result String
get_origin url =
    let prefix_len = count url.scheme + 3 in
    if leb (count url.text) prefix_len
    then err (msg "error getting origin from URL")
    else ok (text_drop prefix_len url.text)

-- What the code calls: slices.SortFunc, url.Parse and read.NewReader
pub record Services : Type 0 where
  pub sort_func : List Service → List Service
  pub parse_url : String → Result Url
  pub new_reader : String → String → String → String → Option TlsConfig → Result ReadClient

module _ (lib : Services) where
  unfoldable pub origin_of : String → Service → Result String
  unfolding get_origin
  origin_of text s = context text (lib.parse_url s.url) >>= λ url. get_origin url

  -- The loop over the shards of the new configuration.
  unfoldable pub any_changed : List (String × ShardInfo) → List Service → Result Bool
  unfolding origin_of
  any_changed current [] = ok false
  any_changed current (s ∷ ss) =
      let rest = any_changed current ss in
      origin_of "error parsing rekor shard URL" s >>= λ origin. elim (find origin current) [
        | none ↦ ok true
        | some matching ↦ if matching.validity_end == s.validity_end then rest else ok true
      ]

  unfoldable pub shards_need_updating : ℕ → List (String × ShardInfo) → List Service → Result Bool
  unfolding filter_v2_shards any_changed
  shards_need_updating now current rekor_log_urls =
      let new = filter_v2_shards lib.sort_func now rekor_log_urls in
      if is_empty new
      then err (msg "error fetching Rekor shards: no v2 shards found in SigningConfig")
      else if not (length current == length new)
      then ok true
      else any_changed current new

  module _ (fetch : Fetching) (keys : KeyLoading) (trusted_logs : List (String × TransparencyLog))
      (user_agent : String) (tls_config : Option TlsConfig) where
    -- One round of the loop: the origin of the shard's URL, and the origin in its checkpoint with
    -- what is stored under it.
    unfoldable pub read_shard : Service → Result (String × String × ShardInfo)
    unfolding origin_of
    read_shard s = context "error parsing Rekor url" (lib.parse_url s.url) >>= λ parsed_url.
        get_origin parsed_url >>= λ origin.
        get_log_verifier fetch user_agent tls_config keys parsed_url trusted_logs >>= λ verifier.
        context "getting Rekor client" (lib.new_reader s.url origin verifier user_agent tls_config)
        >>= λ client.
            context "failed to get current checkpoint for log" client.read_checkpoint
            >>= λ checkpoint. ok (
              origin,
              checkpoint.origin,
              record { client = client; verifier = verifier; validity_end = s.validity_end },
            )

    unfoldable pub read_shards :
        List Service
        → String
        → List (String × ShardInfo)
        → Result (List (String × ShardInfo) × String)
    unfolding read_shard
    read_shards [] latest shards = ok (shards, latest)
    read_shards (s ∷ ss) latest shards = read_shard s >>= λ read.
        read_shards ss (if is_blank latest then read.0 else latest) (put read.1 read.2 shards)

  -- `tls_config_for_ca` is util.TLSConfigForCA for the files that there are.
  unfoldable pub get_rekor_shards :
      Fetching
      → KeyLoading
      → (String → Result TlsConfig)
      → ℕ
      → List (String × TransparencyLog)
      → List Service
      → String
      → String
      → Result (List (String × ShardInfo) × String)
  unfolding filter_v2_shards read_shards
  get_rekor_shards fetch keys tls_config_for_ca now trusted_logs services user_agent cert_chain =
      let shards = filter_v2_shards lib.sort_func now services in
      fail_if (is_empty shards) (msg "failed to find any Rekor v2 shards")
      >> (if is_blank cert_chain
          then ok none
          else (context "getting TLS config" (tls_config_for_ca cert_chain) >>= λ c. ok (some c)))
      >>= λ tls_config. read_shards fetch keys trusted_logs user_agent tls_config shards "" []
