-- ===== src/Extensions.antt =====
-- The data of pkg/fulcio/extensions/extensions.go, and RenderFulcioOIDMatchers.
pub mod Identifiers
pub mod Matchers
pub mod Tests
use rekor_monitor.Base.{String, List, [], ◌∷◌, ◌++◌, is_empty, if◌then◌else◌}
use rekor_monitor.Base.Int.{pos, ℤ}
use rekor_monitor.Identity.{ObjectIdentifier, OidExtension}

pub record FulcioExtensions : Type 0 where
  pub issuer : List String
  pub github_workflow_trigger : List String
  pub github_workflow_sha : List String
  pub github_workflow_name : List String
  pub github_workflow_repository : List String
  pub github_workflow_ref : List String
  pub build_signer_uri : List String
  pub build_signer_digest : List String
  pub runner_environment : List String
  pub source_repository_uri : List String
  pub source_repository_digest : List String
  pub source_repository_ref : List String
  pub source_repository_identifier : List String
  pub source_repository_owner_uri : List String
  pub source_repository_owner_identifier : List String
  pub build_config_uri : List String
  pub build_config_digest : List String
  pub build_trigger : List String
  pub run_invocation_uri : List String
  pub source_repository_visibility_at_signing : List String

-- The identifier is in dot notation.
pub record CustomExtension : Type 0 where
  pub object_identifier : String
  pub extension_values : List String

pub record OidMatchers : Type 0 where
  pub oid_extensions : List OidExtension
  pub fulcio_extensions : FulcioExtensions
  pub custom_extensions : List CustomExtension

abbrev fulcio_oid_prefix : ObjectIdentifier
fulcio_oid_prefix = pos 1 ∷ pos 3 ∷ pos 6 ∷ pos 1 ∷ pos 4 ∷ pos 1 ∷ pos 57264 ∷ []

abbrev pub create_fulcio_oid : ObjectIdentifier → ObjectIdentifier
create_fulcio_oid ext = fulcio_oid_prefix ++ ext

-- The variables that `init` sets: the identifier 1.n under the prefix.
abbrev pub fulcio_oid : ℤ → ObjectIdentifier
fulcio_oid n = create_fulcio_oid (pos 1 ∷ n ∷ [])

-- `if len(values) != 0 { exts = append(exts, …) }`, with the rest of the list.
abbrev pub append_matcher : ℤ → List String → List OidExtension → List OidExtension
append_matcher n values rest =
    if is_empty values
    then rest
    else record { object_identifier = fulcio_oid n; extension_values = values } ∷ rest

unfoldable pub render_fulcio_oid_matchers : FulcioExtensions → List OidExtension
render_fulcio_oid_matchers e = append_matcher (pos 1) e.issuer (
    append_matcher (pos 2) e.github_workflow_trigger (
      append_matcher (pos 3) e.github_workflow_sha (
        append_matcher (pos 4) e.github_workflow_name (
          append_matcher (pos 5) e.github_workflow_repository (
            append_matcher (pos 6) e.github_workflow_ref (
              append_matcher (pos 8) e.issuer (
                append_matcher (pos 9) e.build_signer_uri (
                  append_matcher (pos 10) e.build_signer_digest (
                    append_matcher (pos 11) e.runner_environment (
                      append_matcher (pos 12) e.source_repository_uri (
                        append_matcher (pos 13) e.source_repository_digest (
                          append_matcher (pos 14) e.source_repository_ref (
                            append_matcher (pos 15) e.source_repository_identifier (
                              append_matcher (pos 16) e.source_repository_owner_uri (
                                append_matcher (pos 17) e.source_repository_owner_identifier (
                                  append_matcher (pos 18) e.build_config_uri (
                                    append_matcher (pos 19) e.build_config_digest (
                                      append_matcher (pos 20) e.build_trigger (
                                        append_matcher (pos 21) e.run_invocation_uri (
                                          append_matcher (pos 22)
                                            e.source_repository_visibility_at_signing
                                            []))))))))))))))))))))
