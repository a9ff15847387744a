-- ===== src/Rekor/V1/Search/Tests.antt =====
-- A log with one entry, signed by a key with the fingerprint f1.
use rekor_monitor.Base.{
  ◌≤◌, ◌≡◌, none, some, Result, ok, err, msg, IfOk, String, List, [], ◌∷◌, keep, length,
}
use rekor_monitor.Base.Classes.{string_comparable}
use rekor_monitor.Base.Int.{pos}
use rekor_monitor.Identity.Group.{matched_with, group_of}
use rekor_monitor.Identity.Tests.{literal, plain, watched}
use rekor_monitor.Identity.Values.{create_identities_list}
use rekor_monitor.Notifications.{IdentityMonitorConfiguration}
use rekor_monitor.Notifications.Tests.{config}
use rekor_monitor.Rekor.Matching.{other_key}
use rekor_monitor.Rekor.Matching.Monitored.{Named}
use rekor_monitor.Rekor.V1.Client.{Rekor}
use rekor_monitor.Rekor.V1.Client.Tests.{at_once}
use rekor_monitor.Rekor.V1.Search.{Decoder, Entries, PublicKey, matched_indices, identity_search}
use rekor_monitor.Rekor.V1.Search.Reports.{Fetched, matched_indices-Named, identity_search-keep}
use rekor_monitor.Search.{Found}
use rekor_monitor.Util.File.{Disk, Os}
use rekor_monitor.Util.File.Identities.{Format}
use rekor_monitor.Util.Retry.Tests.{tenths}

-- The body of an entry is the fingerprint of its key.
abbrev signed_by : String → List PublicKey
signed_by fp =
    record { subjects = []; identities = ok (record { crypto = other_key; fingerprint = fp } ∷ []) }
    ∷ []

abbrev pub decoder : Decoder String String
decoder = record {
  decode_string = λ s. ok s;
  unmarshal_proposed_entry = λ s. ok s;
  unmarshal_entry = λ s. ok s;
  verifiers = λ s. ok (signed_by s);
}

abbrev entries : Entries
entries = ("uuid", record { body = "f1"; log_index = pos 4 }) ∷ []

abbrev log : Rekor Entries
log = record {
  get_log_info = λ k. err (msg "not asked");
  search_log_query = λ indices k. ok (entries ∷ []);
  log_info_clock = at_once;
  query_clock = λ indices. at_once;
  context_done = λ i. none;
}

abbrev read_file : String → Result String
read_file name = ok name

abbrev pub plain_format : Format
plain_format = record {
  itoa = λ i. "number";
  oid_string = λ o. "";
  trim_space = λ s. s;
  marshal_entry = λ e. ok "{}";
  marshal_metadata = λ m. ok "{}";
}

abbrev pub no_errors : Os
no_errors = record { open_append = λ f. none; write = λ f t. none; write_file = λ f t. none }

abbrev pub no_files : Disk
no_files = λ f. none

abbrev pub range_config : IdentityMonitorConfiguration
range_config = record config { end_index = some (pos 4) }

matched_indices-Named_example :
    IfOk
      (λ f. Named (create_identities_list watched) f.0 × (length f.1 ≤ 1))
      (matched_indices decoder literal plain read_file (entries ∷ []) watched "" "")
matched_indices-Named_example =
    matched_indices-Named decoder literal plain read_file (entries ∷ []) watched "" ""

identity_search-keep_example :
    IfOk
      (λ r.
        (found : Found) × Fetched decoder literal plain read_file tenths log plain_format no_errors
          range_config watched found
        × (r.1 ≡ found.1)
        × ((v : String) → group_of v r.0 ≡ keep (λ e. matched_with v e) found.0))
      (identity_search decoder literal plain read_file tenths log plain_format no_errors
        range_config watched no_files).0
identity_search-keep_example =
    identity_search-keep decoder literal plain read_file tenths log plain_format no_errors
      range_config watched no_files
