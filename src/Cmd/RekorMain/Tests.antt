-- ===== src/Cmd/RekorMain/Tests.antt =====
-- rekor-monitor started twice: the log has five entries at the first start, and nine at the second.
use rekor_monitor.Base.{
  ℕ, ◌≡◌, refl, sym, subst, none, some, ok, err, msg, String, List, [], ◌∷◌, arith, true, false,
  if◌then◌else◌, if_rule, ok_injective, Option-cases, inl, inr,
}
use rekor_monitor.Base.Classes.{◌==◌, string_comparable}
use rekor_monitor.Cmd.Exits.{exited, rekor_monitored_values}
use rekor_monitor.Cmd.Loop.Lifetimes.{GapFree}
use rekor_monitor.Cmd.RekorMain.{Trusted, get_rekor_version}
use rekor_monitor.Cmd.RekorMain.Starts.{Start, MainV1, MeetsV2, program, starts}
use rekor_monitor.Cmd.RekorMain.Repeated.{starts-GapFree}
use rekor_monitor.Cmd.RekorV2.Monitor.{position}
use rekor_monitor.Cmd.RekorV2.Positions.{IsStorable, ServesStorable}
use rekor_monitor.Cmd.RekorV2.Resumed.Tests.{
  net, packages, flags, unbounded, stored, checkpoint, five_IsStorable, nine_IsStorable, served,
  shards_of,
}
use rekor_monitor.Cmd.TrustedCas.{TempFiles}
use rekor_monitor.Cmd.TrustedCas.Cleanup.{IsFresh}
use rekor_monitor.Cmd.TrustedCas.Spared.{IsNoTemp}
use rekor_monitor.Extensions.Matchers.{render_oid_matchers}
use rekor_monitor.Extensions.{render_fulcio_oid_matchers}
use rekor_monitor.Extensions.Tests.{numerals}
use rekor_monitor.Identity.{MonitoredValues}
use rekor_monitor.Identity.Values.{monitored_values_exist}
use rekor_monitor.Rekor.V2.Client.{ShardInfo}
use rekor_monitor.Rekor.V2.LogVerifier.{get_log_verifier}
use rekor_monitor.Rekor.V2.LogVerifier.Tests.{fetching, loading, trusted}
use rekor_monitor.Rekor.LogKeys.{verifier_of}
use rekor_monitor.Rekor.V2.Shards.{get_rekor_shards}
use rekor_monitor.Rekor.V2.Shards.Tests.{calls, services, reader}

-- A temporary file has one of two names, if there is no such file.
abbrev pub temp_name : String → String
temp_name pattern = if pattern == "fulcio-root-*.pem" then "/tmp/1" else "/tmp/2"

abbrev pub temp_files : TempFiles
temp_files = record {
  create_temp =
      λ p d. elim (d (temp_name p)) [ none ↦ ok (temp_name p) | some t ↦ err (msg "file exists") ];
  write = λ f t. none;
  remove = λ f. none;
  encode_pem = λ der. der;
}

pub fresh : IsFresh temp_files
fresh p n d h = elim (Option-cases (d (temp_name p))) [
  | inl e ↦ let same : temp_name p ≡ n = ground (arith, e, h) in subst (λ m. d m ≡ none) same e
  | inr (t, e) ↦ absurd (ground (arith, e, h))
]

other_name : (p : String) → ("logInfo.v2.txt" == temp_name p) ≡ false
other_name p =
    if_rule (λ (n : String). ("logInfo.v2.txt" == n) ≡ false) (p == "fulcio-root-*.pem") _ _
      (λ _. refl) (λ _. refl)

no_temp : IsNoTemp temp_files "logInfo.v2.txt"
no_temp p n d h = elim (Option-cases (d (temp_name p))) [
  | inl e ↦
      let same : temp_name p ≡ n = ground (arith, e, h) in
      subst (λ m. ("logInfo.v2.txt" == m) ≡ false) same (other_name p)
  | inr (t, e) ↦ absurd (ground (arith, e, h))
]

abbrev repository : Trusted
repository = record {
  fulcio_authorities = record { root = "der1"; intermediates = "der2" ∷ [] } ∷ [];
  rekor_logs = trusted;
  rekor_services = services;
}

abbrev start_at : ℕ → Start
start_at size = record {
  get_trusted = λ f. ok repository;
  now = 30;
  services = calls;
  fetch = fetching;
  nets = λ s. net size ∷ [];
}

-- No start of this test is of a v1 server.
abbrev no_v1 : MainV1
no_v1 = λ f c logs d. (exited 1, none)

version_2 :
    (size : ℕ) (t : Trusted)
    → (start_at size).get_trusted flags ≡ ok t
    → get_rekor_version t.rekor_services flags.server_url ≡ 2
unfolding get_rekor_version
version_2 size t h =
    subst (λ (u : Trusted). get_rekor_version u.rekor_services flags.server_url ≡ 2)
      (ok_injective repository t h) refl

-- The shards that both starts find.
abbrev found : List (String × ShardInfo) × String
found =
    let s = shards_of (reader "log2026") (reader "log2025") in
    (s.rekor_shards, s.latest_shard_origin)

abbrev Finds : Trusted → List (String × ShardInfo) × String → Type 0
Finds t r =
    get_rekor_shards calls fetching loading packages.tls_config_for_ca 30 t.rekor_logs
      t.rekor_services flags.user_agent flags.https_cert_chain_file
    ≡ ok r

finds : (r : List (String × ShardInfo) × String) → Finds repository r → found ≡ r
unfolding get_rekor_shards get_log_verifier verifier_of
finds r h = ok_injective found r h

meets :
    (size : ℕ)
    → IsStorable packages flags "log2026" (checkpoint size)
    → MeetsV2 packages numerals flags "log2026" (start_at size)
meets size storable = record {
  version = version_2 size;
  storable = λ t r h got.
      subst
        (λ (x : List (String × ShardInfo) × String).
          ServesStorable packages flags "log2026"
            (record { rekor_shards = x.0; latest_shard_origin = x.1 }) (net size)
          × Unit {0})
        (finds r (subst (λ u. Finds u r) (sym (ok_injective repository t h)) got))
        (served (reader "log2026") (reader "log2025") size storable, tt);
}

pub watches :
    (values : MonitoredValues)
    → rekor_monitored_values numerals unbounded.monitored_values ≡ ok values
    → monitored_values_exist values ≡ true
unfolding rekor_monitored_values monitored_values_exist render_oid_matchers
    render_fulcio_oid_matchers
watches values h =
    let expected : MonitoredValues = record {
      certificate_identities = unbounded.monitored_values.certificate_identities;
      fingerprints = [];
      subjects = "bob" ∷ [];
      oid_matchers = [];
    } in
    subst (λ (v : MonitoredValues). monitored_values_exist v ≡ true)
      (ok_injective expected values h) refl

starts-GapFree_example : GapFree (position packages flags "log2026" stored) (
    starts
      (program packages numerals temp_files no_v1 flags unbounded)
      (start_at 5 ∷ start_at 9 ∷ [])
      stored)
starts-GapFree_example =
    starts-GapFree packages numerals temp_files no_v1 flags unbounded "log2026"
      (record { stats = λ f. refl; opens = λ f. refl; writes = λ f t. refl; empty = refl }) fresh
      no_temp (record { from_identities = refl; from_metadata = tt }) watches refl refl
      (start_at 5 ∷ start_at 9 ∷ []) stored (meets 5 five_IsStorable, (meets 9 nine_IsStorable, tt))
