-- ===== src/Rekor/V2/Search/Tests.antt =====
-- A shard with entries that are signed by a key with the fingerprint f1.
use rekor_monitor.Base.{◌≡◌, none, some, Result, ok, err, msg, IfOk, String, List, [], ◌∷◌, keep}
use rekor_monitor.Base.Classes.{string_comparable}
use rekor_monitor.Identity.Group.{matched_with, group_of}
use rekor_monitor.Identity.Tests.{literal, plain, watched}
use rekor_monitor.Rekor.Matching.{other_key}
use rekor_monitor.Rekor.V1.Search.Tests.{plain_format, no_errors, no_files, range_config}
use rekor_monitor.Rekor.V2.Client.{ShardInfo, Encoding}
use rekor_monitor.Rekor.V2.Search.{ProtoEntry, Verifiers, identity_search}
use rekor_monitor.Rekor.V2.Search.Reports.{FetchedV2, identity_search-keep_v2}
use rekor_monitor.Search.{Found}

abbrev pub key_verifiers : Verifiers
key_verifiers = record {
  new_public_key =
      λ k. ok (record { identity = ok (record { crypto = other_key; fingerprint = k }) });
  new_certificate = λ c. err (msg "no certificates");
  subject_alternate_names = λ c. [];
}

abbrev pub dsse_entry : ProtoEntry
dsse_entry = record {
  kind = "dsse";
  spec = some (record {
    dsse_v002 = record { public_key = some "f1"; x509_certificate = none } ∷ [];
    hashed_rekord_v002 = record { public_key = none; x509_certificate = none };
  });
}

abbrev pub encoding : Encoding ProtoEntry
encoding = record { unmarshal_bundle = λ b. ok (b ∷ []); unmarshal_entry = λ b. ok dsse_entry }

abbrev shards : List (String × ShardInfo)
shards =
    (
      "log",
      record {
        client = record {
          read_checkpoint = ok (record { origin = "log"; size = 5; hash = "" });
          read_entry_bundle = λ t p. ok [];
          read_tile = λ l t p. err (msg "no such tile");
        };
        verifier = "key";
        validity_end = 0;
      },
    )
    ∷ []

abbrev read_file : String → Result String
read_file name = ok name

identity_search-keep_v2_example :
    IfOk
      (λ r.
        (found : Found) × FetchedV2 key_verifiers literal plain read_file encoding plain_format
          no_errors shards "log" range_config watched found
        × (r.1 ≡ found.1)
        × ((v : String) → group_of v r.0 ≡ keep (λ e. matched_with v e) found.0))
      (identity_search key_verifiers literal plain read_file encoding plain_format no_errors shards
        "log" range_config watched no_files).0
identity_search-keep_v2_example =
    identity_search-keep_v2 key_verifiers literal plain read_file encoding plain_format no_errors
      shards "log" range_config watched no_files
