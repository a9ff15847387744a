-- ===== src/Cmd/Config/Loaded.antt =====
-- What LoadMonitorConfig and GetTUFClient return.
use Prim.Native.String.{◌++◌ as text_append}
use text.Mathlib.TextLemmas.{cons≢nil}
use rekor_monitor.Base.{
  ◌≡◌, refl, true, false, not, ◌&&◌, ◌||◌, ok, msg, context, context-ok, fail_if, String, IfOk-bind,
  IfOk-of, arith, if◌then◌else◌, Bool-cases, Result-cases, inl, inr,
}
use rekor_monitor.Base.Classes.{◌==◌, string_comparable}
use rekor_monitor.Base.Text.{is_blank, append-blank}
use rekor_monitor.Cmd.Config.{
  MonitorFlags, zero_config, Loading, read_config_file, read_config_yaml, with_output,
  with_ca_files, load_monitor_config,
}
use rekor_monitor.Identity.{Regexp}
use rekor_monitor.Notifications.{IdentityMonitorConfiguration}
use rekor_monitor.Notifications.Validate.{
  PemFiles, validate, is_known_format, IsValid, validate-IsValid,
}

output_lem :
    (default extension file : String)
    → is_blank default ≡ false
    → is_blank (if is_blank file then text_append default extension else file) ≡ false
output_lem default extension String.[] b = append-blank default extension b
output_lem default extension (String.◌∷◌ c s) b = refl

known_lem :
    (re : Regexp) (format : String)
    → is_known_format re (if is_blank format then "text" else format) ≡ true
    → ((if is_blank format then "text" else format) == "text"
        || (if is_blank format then "text" else format) == "json")
      ≡ true
known_lem re String.[] h = refl
known_lem re (String.◌∷◌ c s) h = elim (Bool-cases (String.◌∷◌ c s == "")) [
  | inl e ↦ absurd (cons≢nil ((string_comparable.same_iff (String.◌∷◌ c s) "").0 e))
  | inr e ↦ ground (arith, e, h)
]

module _ (load : Loading) (re : Regexp) (files : PemFiles) where
  -- The configuration of the file, that of the text, or where neither is given, the zero one.
  pub data IsGiven (flags : MonitorFlags) (g : IdentityMonitorConfiguration) : Type 0 where
    from_file :
        (text : String)
        → is_blank flags.config_file ≡ false
        → load.read_file flags.config_file ≡ ok text
        → load.unmarshal text zero_config ≡ ok g
        → IsGiven flags g
    from_text :
        is_blank flags.config_file ≡ true
        → is_blank flags.config_yaml ≡ false
        → load.unmarshal flags.config_yaml zero_config ≡ ok g
        → IsGiven flags g
    not_given :
        is_blank flags.config_file ≡ true
        → is_blank flags.config_yaml ≡ true
        → g ≡ zero_config
        → IsGiven flags g

  -- A configuration as it is loaded, for the one that is given.
  pub record IsLoaded (flags : MonitorFlags) (default_file : String)
      (c : IdentityMonitorConfiguration) : Type 0 where
    pub one_source : (is_blank flags.config_file || is_blank flags.config_yaml) ≡ true
    pub given : IdentityMonitorConfiguration
    pub is_given : IsGiven flags given
    pub same_values : c.monitored_values ≡ given.monitored_values
    pub same_range : (c.start_index ≡ given.start_index) × (c.end_index ≡ given.end_index)
    pub is_valid : IsValid re files c
    pub has_format :
        (c.output_identities_format == "text" || c.output_identities_format == "json") ≡ true
    pub has_file : is_blank default_file ≡ false → is_blank c.output_identities_file ≡ false
    pub flag_roots : is_blank flags.ca_roots_file ≡ false → c.ca_roots_file ≡ flags.ca_roots_file
    pub flag_intermediates :
        is_blank flags.ca_intermediates_file ≡ false
        → c.ca_intermediates_file ≡ flags.ca_intermediates_file

  read_config-IsGiven :
      (flags : MonitorFlags) (read given : IdentityMonitorConfiguration)
      → (is_blank flags.config_file || is_blank flags.config_yaml) ≡ true
      → read_config_file load flags.config_file zero_config ≡ ok read
      → read_config_yaml load flags.config_yaml read ≡ ok given
      → IsGiven flags given
  unfolding read_config_file read_config_yaml
  read_config-IsGiven flags read given one f y = elim (Bool-cases (is_blank flags.config_file)) [
    | inl b ↦ elim (Bool-cases (is_blank flags.config_yaml)) [
      | inl d ↦ not_given b d (ground (arith, b, d, f, y))
      | inr d ↦
          let none_read : zero_config ≡ read = ground (arith, b, f) in
          from_text b d (
            context-ok "error parsing identities" (load.unmarshal flags.config_yaml zero_config)
              given (rw none_read (ground (arith, d, y))))
    ]
    | inr b ↦ elim (Result-cases (load.read_file flags.config_file)) [
      | inl (text, e) ↦
          let blank : is_blank flags.config_yaml ≡ true = ground (arith, b, one) in
          let same : read ≡ given = ground (arith, blank, y) in
          from_file text b e (
            context-ok "error parsing identities" (load.unmarshal text zero_config) given
              (ground (arith, b, e, f, same)))
      | inr (inl (x, e)) ↦ absurd (ground (arith, b, e, f))
      | inr (inr (x, e)) ↦ absurd (ground (arith, b, e, f))
    ]
  ]

  -- A configuration that LoadMonitorConfig returns comes from one source, the file or the text of the
  -- flags, or from neither; it keeps the values to monitor and the range of that source, has only
  -- expressions that compile, names only files with a PEM block and no intermediate authorities
  -- without root ones, has
  -- the format text or json and a name for the file of identities where there is a default name, and
  -- has the files of certificate authorities that the flags name.
  pub load_monitor_config-IsLoaded :
      (flags : MonitorFlags) (default_file : String) (c : IdentityMonitorConfiguration)
      → load_monitor_config load re files flags default_file ≡ ok c
      → IsLoaded flags default_file c
  unfolding load_monitor_config
  load_monitor_config-IsLoaded flags default_file c h =
      let config = λ (g : IdentityMonitorConfiguration).
        with_ca_files load flags (with_output load default_file g) in
      let P : IdentityMonitorConfiguration → Type 0 = IsLoaded flags default_file in
      let both = not (is_blank flags.config_file) && not (is_blank flags.config_yaml) in
      IfOk-of P (load_monitor_config load re files flags default_file) c
        (IfOk-bind P
          (fail_if both (msg "error: only one of --config and --config-file should be specified")) _
          λ _ one. IfOk-bind P (read_config_file load flags.config_file zero_config) _ λ read f.
            IfOk-bind P (read_config_yaml load flags.config_yaml read) _ λ given y.
              IfOk-bind P (context "invalid configuration" (validate re files (config given))) _
                λ _ v.
                  let single : (is_blank flags.config_file || is_blank flags.config_yaml) ≡ true =
                    ground (arith, one) in
                  let valid = validate-IsValid re files (config given) (context-ok _ _ tt v) in
                  record {
                    one_source = single;
                    given = given;
                    is_given = read_config-IsGiven flags read given single f y;
                    same_values = refl;
                    same_range = (refl, refl);
                    is_valid = valid;
                    has_format = known_lem re given.output_identities_format valid.known_format;
                    has_file = output_lem default_file _ given.output_identities_file;
                    flag_roots = λ b. rw b refl;
                    flag_intermediates = λ b. rw b refl;
                  })
        h
