-- ===== src/Lib.antt =====
-- rekor-monitor watches transparency logs. A monitor (cmd/rekor_monitor, cmd/ct_monitor) runs a loop
-- (internal/cmd/common.go) that checks a log's consistency with the last checkpoint, fetches the new
-- entries (pkg/rekor/v1, pkg/rekor/v2, pkg/ct), looks in them for identities that its owner watches
-- (pkg/identity, pkg/fulcio/extensions), notifies the owner (pkg/notifications), and writes the
-- checkpoint (pkg/util/file). Calls to a log are retried (pkg/util/retry.go).
--
-- Files:
--   Base           shared names: tests, lists, 64-bit integers, texts, results of Go functions
--   Identity       pkg/identity/identity.go: its data; below it Values (VerifyMonitoredValues),
--                  Certs (extensions and names of certificates, OIDMatchesPolicy), Chain
--                  (ValidateCertificateChain), Policy (CertMatchesPolicy), Group
--                  (CreateMonitoredIdentities)
--   Extensions     pkg/fulcio/extensions/extensions.go: its data and RenderFulcioOIDMatchers; below it
--                  Identifiers (ParseObjectIdentifier) and Matchers (RenderOIDMatchers), with Loops on
--                  its loops and Last on several matchers for one identifier
--   Notifications  pkg/notifications/notifications.go: the configuration, the pool of platforms,
--                  TriggerNotifications; below it Validate (Validate of the configuration) and
--                  Senders (the Send methods of pkg/notifications/email.go, github_issues.go,
--                  mailgun.go and sendgrid.go), with Delivered on what they deliver
--   Util.Retry     pkg/util/retry.go; below it Bounds (waits, and recovery from failures)
--   Util.File      pkg/util/file/file.go; below it Identities (WriteMatchedIdentityEntries),
--                  Checkpoints (WriteCheckpointRekorV1, WriteCheckpointRekorV2, ...), Reading
--                  (readLastCheckpoint), Flatten (texts on one line), RoundTrip (reading what was
--                  written), Kept (files that a search leaves alone) and Position (where a monitor
--                  resumes)
--   Util.Tls       pkg/util/tls.go
--   Search         what the identity searches share: writing and grouping what is found; Kept: the files
--                  that it leaves alone
--   Rekor.Matching what pkg/rekor/v1/identity.go and pkg/rekor/v2/identity.go share: the matchers and
--                  the scan of one entry; Monitored, Sound and Exact: what they find
--   Rekor.V1       Client: pkg/rekor/v1/client.go, with Ranges on which entries are fetched; Search:
--                  pkg/rekor/v1/identity.go, with Reports on what is reported; Verifier:
--                  pkg/rekor/v1/verifier.go from ReadLatestCheckpoint on, with Consistency on what a
--                  check that succeeds has checked; LogVerifier: its GetLogVerifier, with Trust on
--                  whose key is taken
--   Rekor.LogKeys  the search of the trusted root for a log, which both GetLogVerifier do
--   Rekor.V2       Client: pkg/rekor/v2/client.go from getTileIndex on, with Tiles and Ranges on
--                  which entries are fetched; Shards: that file up to getOrigin, with Order
--                  (filterV2Shards), Updates (ShardsNeedUpdating), Reads and Fresh (GetRekorShards);
--                  Search: pkg/rekor/v2/identity.go; Verifier: RunConsistencyCheck of
--                  pkg/rekor/v2/verifier.go; LogVerifier: its GetLogVerifier
--   Ct             Search: pkg/ct/monitor.go, with Reports on what is reported and Trusted on
--                  untrusted entries; Consistency: pkg/ct/consistency.go, with Checked on what a
--                  check that succeeds has checked
--   Cmd.Loop       MonitorLoop of internal/cmd/common.go; below it Chains and Ranges (the
--                  searched ranges), Orders (what precedes the write of a checkpoint), Metrics (runs
--                  and counters), Lifetimes (a monitor that is started again and again, on the disk
--                  that it left), with Covered on one lifetime and Gaps on all
--   Cmd.Config     the flags, the configuration and GetTUFClient of internal/cmd/common.go
--   Cmd.TrustedCas ConfigureTrustedCAs of internal/cmd/common.go, with Writes, Files, Cleanup and
--                  Spared on the temporary files and on what else it leaves alone
--   Cmd.RekorV1, Cmd.RekorV2, Cmd.RekorMain
--                  cmd/rekor_monitor/main.go: its two instances of MonitorLogic, the set-up of their
--                  loops and mainWithReturn, with Starts, Program, Repeated and StartsV1 on the
--                  program that is started again and again. Cmd.RekorV1.Monitor and
--                  Cmd.RekorV2.Monitor are a run of a monitor with all that it calls; Positions,
--                  Resumed and Restart are on where it resumes, in v2 within one shard; Fresh is on
--                  the shards that it checks
--   Cmd.CtMonitor  cmd/ct_monitor/main.go; Cmd.Exits: how the programs end
--
-- How the code is modelled: a Go function that returns an error is a function into `Result`, whose
-- third case is a run-time panic. An int64 is an integer reduced to 64 bits after each operation.
-- A []byte that is only passed on is a text. Code of other modules (the generated clients, regexp,
-- x509, os, time) is a record of functions that a definition takes as an argument. What changes
-- from call to call, as the log, the clock and the context do, is indexed by the attempt, or given
-- anew for every run of the loop (`RunEnv`).
--
-- Fuel and bounds: GetEntriesByIndexRange of v1 has a round for every index of the range, more than
-- its batches of ten need; that of v2 has a round for every tile between the first and the last.
-- Retry has a round for every configured attempt. MonitorLoop runs for as long as the list of
-- environments that it is given.
--
-- The order in which Go walks a map is fixed in the model: that of a list of entries. The disk is
-- carried from call to call, from run to run, and from one start of the program to the next.
--
-- Not modelled: output (PrintMonitoredValues, the texts of log messages), the metrics server, and
-- code that only tests use.
pub mod Base
pub mod Identity
pub mod Extensions
pub mod Notifications
pub mod Util
pub mod Search
pub mod Rekor
pub mod Ct
pub mod Cmd
