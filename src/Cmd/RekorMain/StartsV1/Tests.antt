-- ===== src/Cmd/RekorMain/StartsV1/Tests.antt =====
-- rekor-monitor started twice against a v1 server: the shard has five entries at the first start, and
-- nine at the second.
use rekor_monitor.Base.{
  ◌≡◌, refl, subst, none, Result, ok, err, msg, String, [], ◌∷◌, arith, false, if_rule,
  ok_injective, Option-cases, inl, inr,
}
use rekor_monitor.Base.Classes.{◌==◌, string_comparable}
use rekor_monitor.Cmd.Exits.{exited}
use rekor_monitor.Cmd.Loop.Lifetimes.{GapFree}
use rekor_monitor.Cmd.RekorMain.{Trusted, get_rekor_version}
use rekor_monitor.Cmd.RekorMain.Starts.{starts}
use rekor_monitor.Cmd.RekorMain.StartsV1.{StartV1, MeetsV1, program_v1, starts-GapFree_v1}
use rekor_monitor.Cmd.RekorMain.Tests.{temp_files, temp_name, fresh, watches}
use rekor_monitor.Cmd.RekorV1.Positions.{IsStorableInfo}
use rekor_monitor.Cmd.RekorV1.Resumed.Tests.{
  called, flags, inactive, info, client, reached, answered, unbounded, no_files,
  five_IsStorableInfo, nine_IsStorableInfo,
}
use rekor_monitor.Cmd.TrustedCas.Spared.{IsNoTemp}
use rekor_monitor.Extensions.Tests.{numerals}
use rekor_monitor.Rekor.V2.LogVerifier.Tests.{fetching, loading, trusted}
use rekor_monitor.Rekor.V2.Shards.Tests.{calls}
use rekor_monitor.Util.File.Reading.{read_latest_checkpoint}
use rekor_monitor.Util.Tls.{TlsConfig}

other_name_v1 : (p : String) → ("logInfo.v1.txt" == temp_name p) ≡ false
other_name_v1 p =
    if_rule (λ (n : String). ("logInfo.v1.txt" == n) ≡ false) (p == "fulcio-root-*.pem") _ _
      (λ _. refl) (λ _. refl)

no_temp_v1 : IsNoTemp temp_files "logInfo.v1.txt"
no_temp_v1 p n d h = elim (Option-cases (d (temp_name p))) [
  | inl e ↦
      let same : temp_name p ≡ n = ground (arith, e, h) in
      subst (λ m. ("logInfo.v1.txt" == m) ≡ false) same (other_name_v1 p)
  | inr (t, e) ↦ absurd (ground (arith, e, h))
]

-- The server is in no signing configuration, so its API has version 1.
abbrev repository : Trusted
repository = record {
  fulcio_authorities = record { root = "der1"; intermediates = "der2" ∷ [] } ∷ [];
  rekor_logs = trusted;
  rekor_services = [];
}

abbrev start_with : String → StartV1
start_with text = record {
  get_trusted = λ f. ok repository;
  get_rekor_client = λ url agent tls. ok (client text);
  runs = λ c verifier. reached text ∷ [];
  now = 30;
  services = calls;
  fetch = fetching;
  main_v2 = λ f c s d. (exited 1, none);
}

version_1 :
    (text : String) (t : Trusted)
    → (start_with text).get_trusted flags ≡ ok t
    → get_rekor_version t.rekor_services flags.server_url ≡ 1
unfolding get_rekor_version
version_1 text t h =
    subst (λ (u : Trusted). get_rekor_version u.rekor_services flags.server_url ≡ 1)
      (ok_injective repository t h) refl

abbrev no_tls : String → Result TlsConfig
no_tls f = err (msg "no file")

meets :
    (text : String)
    → IsStorableInfo called flags inactive (info text)
    → MeetsV1 called loading no_tls numerals temp_files flags unbounded inactive (start_with text)
meets text storable = record {
  version = version_1 text;
  storable = λ c verifier. (answered text storable, tt);
}

starts-GapFree_v1_example : GapFree none (
    starts
      (program_v1 called loading no_tls numerals temp_files flags unbounded inactive)
      (start_with "5" ∷ start_with "9" ∷ [])
      no_files)
unfolding read_latest_checkpoint
starts-GapFree_v1_example =
    starts-GapFree_v1 called loading no_tls numerals temp_files flags unbounded inactive
      (record { stats = λ f. refl; opens = λ f. refl; writes = λ f t. refl; empty = refl }) fresh
      no_temp_v1 (record { from_identities = refl; from_metadata = tt }) watches refl refl
      (start_with "5" ∷ start_with "9" ∷ []) no_files
      (meets "5" five_IsStorableInfo, (meets "9" nine_IsStorableInfo, tt))
