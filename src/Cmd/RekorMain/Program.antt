-- ===== src/Cmd/RekorMain/Program.antt =====
-- mainWithReturn around the loops, for either version of the API: what it does to the position on the
-- disk, if its loop keeps that position.
use rekor_monitor.Base.{
  ℕ, ◌≡◌, refl, sym, subst, Option, none, Result, ok, err, panic, String, List, [], ◌∷◌, All,
  Result_ok_rule,
}
use rekor_monitor.Base.Int.{ℤ}
use rekor_monitor.Cmd.Config.{MonitorFlags}
use rekor_monitor.Cmd.Exits.{exited, fatal, panicked, Ended, disk_after, or_exit}
use rekor_monitor.Cmd.Loop.{Call}
use rekor_monitor.Cmd.Loop.Lifetimes.Covered.{Follows-refl, Covers, Covers-weaken}
use rekor_monitor.Cmd.Loop.Chains.{Follows}
use rekor_monitor.Cmd.Loop.Lifetimes.{GapFree}
use rekor_monitor.Cmd.RekorMain.{Trusted, get_rekor_version, start_version, main_with_return}
use rekor_monitor.Cmd.RekorMain.Starts.{calls_of, starts, MainV1, version_flags}
use rekor_monitor.Cmd.RekorV2.{Shards}
use rekor_monitor.Cmd.TrustedCas.{TempFiles, Configured, configure_trusted_cas}
use rekor_monitor.Cmd.TrustedCas.Cleanup.{IsFresh}
use rekor_monitor.Cmd.TrustedCas.Spared.{
  SameSearch, IsNoTemp, IsSpared, configure_trusted_cas-IsSpared,
}
use rekor_monitor.Extensions.Identifiers.{Numerals}
use rekor_monitor.Notifications.{IdentityMonitorConfiguration}
use rekor_monitor.Rekor.LogKeys.{KeyLoading}
use rekor_monitor.Rekor.V2.LogVerifier.{Fetching}
use rekor_monitor.Rekor.V2.Shards.{Services}
use rekor_monitor.Util.File.{Disk}
use rekor_monitor.Util.Tls.{TlsConfig}

pub or_exit_rule :
    {A : Type 0} (P : Ended → Type 0) (r : Result A) (next : A → Ended)
    → P (exited 1, none)
    → ((p : String) → P (panicked p, none))
    → ((a : A) → r ≡ ok a → P (next a))
    → P (or_exit r next)
or_exit_rule P (ok a) next x y z = z a refl
or_exit_rule P (err e) next x y z = x
or_exit_rule P (panic p) next x y z = y p

module _ (position : Disk → Option ℤ) where
  -- A start that makes the calls `calls` from the position `here` and leaves the disk `left`.
  abbrev pub Leaves : Option ℤ → List Call → Disk → Type 0
  Leaves here calls left = Covers here here calls (position left)

  pub no_calls : (disk left : Disk) → position left ≡ position disk → Leaves (position disk) [] left
  no_calls disk left h = (tt, rw h (Follows-refl (position disk)))

  -- Starts that each leave the position where the next one begins pass nothing over.
  pub starts-GapFree_from :
      {S : Type 0} (run : S → Disk → Ended × Disk) (Meets : S → Type 0) (xs : List S) (disk : Disk)
      (last : Option ℤ)
      → ((x : S) (d : Disk) → Meets x → Leaves (position d) (calls_of (run x d).0) (run x d).1)
      → All Meets xs
      → Follows last (position disk)
      → GapFree last (starts run xs disk)
  unfolding starts
  starts-GapFree_from run Meets [] disk last leaves meets f = tt
  starts-GapFree_from run Meets (x ∷ xs) disk last leaves meets f =
      let (ended, left) = run x disk in
      let covers : Covers last last (calls_of ended) (position left) =
        Covers-weaken last (position disk) (calls_of ended) (position left) f
          (leaves x disk meets.0) in
      (covers.0, starts-GapFree_from run Meets xs left _ leaves meets.1 covers.1)

module _ (lib : Services) (fetch : Fetching) (keys : KeyLoading)
    (tls_of : String → Result TlsConfig) (num : Numerals) (main_v1 : MainV1)
    (main_v2 : MonitorFlags → IdentityMonitorConfiguration → Shards → Disk → Ended)
    (tmp : TempFiles) (given : MonitorFlags) (config : IdentityMonitorConfiguration)
    (get_trusted : MonitorFlags → Result Trusted) (now : ℕ) where
  abbrev pub started_version : ℕ → IdentityMonitorConfiguration → Trusted → Disk → Ended
  started_version version with_cas trusted created =
      start_version lib fetch keys tls_of num main_v1 main_v2 now version
        (version_flags num version given) with_cas trusted created

  -- What mainWithReturn does for a version, once the authorities are configured.
  abbrev finish : Trusted → Configured tmp → ℕ → Ended × Disk
  finish trusted (cleanup, with_cas, created) version = elim cleanup [
    | err e ↦ ((fatal e, none), created)
    | panic p ↦ ((panicked p, none), created)
    | ok remove ↦
        let ended = started_version version with_cas trusted created in
        (ended, remove (disk_after ended created))
  ]

  -- The position depends on the file alone, and that is no temporary one.
  pub main_with_return-Leaves :
      (position : Disk → Option ℤ) (file : String) (version : ℕ) (disk : Disk)
      → ((d d' : Disk) → d file ≡ d' file → position d ≡ position d')
      → IsFresh tmp
      → IsNoTemp tmp file
      → ((trusted : Trusted)
          → get_trusted given ≡ ok trusted
          → get_rekor_version trusted.rekor_services given.server_url ≡ version)
      → ((trusted : Trusted) (with_cas : IdentityMonitorConfiguration) (created : Disk)
          → get_trusted given ≡ ok trusted
          → SameSearch config with_cas
          → let ended = started_version version with_cas trusted created in
            Leaves position (position created) (calls_of ended) (disk_after ended created))
      → let r =
          main_with_return lib fetch keys tls_of num main_v1 main_v2 tmp
            (ok (given, config))
            get_trusted
            now
            disk in
        Leaves position (position disk) (calls_of r.0) r.1
  unfolding main_with_return
  main_with_return-Leaves position file version disk depends fresh no_temp is_version leaves =
      let P : Ended × Disk → Type 0 = λ r. Leaves position (position disk) (calls_of r.0) r.1 in
      Result_ok_rule P (get_trusted given) _ _ _
        (λ trusted t.
          let c : Configured tmp =
            configure_trusted_cas tmp config trusted.fulcio_authorities disk in
          let spared : IsSpared tmp file config disk c =
            configure_trusted_cas-IsSpared tmp file config trusted.fulcio_authorities disk fresh
              no_temp in
          let same_here : position c.2 ≡ position disk = depends c.2 disk spared.kept in
          subst (λ v. P (finish trusted c v)) (sym (is_version trusted t))
            (Result_ok_rule P c.0 _ _ _
              (λ remove e.
                let ended = started_version version c.1 trusted c.2 in
                let left = disk_after ended c.2 in
                subst (λ here. Leaves position here (calls_of ended) (remove left)) same_here
                  (subst (Covers (position c.2) (position c.2) (calls_of ended))
                    (sym (depends (remove left) left (spared.cleaned remove e left)))
                    (leaves trusted c.1 c.2 t spared.same)))
              (λ e. no_calls position disk c.2 same_here)
              (λ p. no_calls position disk c.2 same_here)))
        (λ e. no_calls position disk disk refl) (λ p. no_calls position disk disk refl)
