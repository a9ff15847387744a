-- ===== src/Util/File/Identities.antt =====
-- WriteIdentity, WriteIdentityMetadata, WriteMatchedIdentityEntries, and LogEntry.String of
-- pkg/identity/identity.go, which prints an entry.
use Prim.Native.String.{◌++◌ as text_append}
use rekor_monitor.Base.{
  not, Option, none, some, Result, ok, err, panic, context, wrap, String, List, [], ◌∷◌, keep,
  if◌then◌else◌,
}
use rekor_monitor.Base.Classes.{◌==◌, string_comparable}
use rekor_monitor.Base.Text.{is_blank}
use rekor_monitor.Base.Int.{ℤ}
use rekor_monitor.Identity.{LogEntry, ObjectIdentifier}
use rekor_monitor.Util.File.{Disk, Written, Os, or_empty, put, write_file, append_text, then_on}

pub record IdentityMetadata : Type 0 where
  pub latest_index : ℤ

-- strconv.Itoa, asn1.ObjectIdentifier.String, strings.TrimSpace and json.Marshal
pub record Format : Type 0 where
  pub itoa : ℤ → String
  pub oid_string : ObjectIdentifier → String
  pub trim_space : String → String
  pub marshal_entry : LogEntry → Result String
  pub marshal_metadata : IdentityMetadata → Result String

-- strings.Join(parts, " ")
pub join_parts : List String → String
join_parts [] = ""
join_parts (p ∷ []) = p
join_parts (p ∷ (q ∷ ps)) = text_append p (text_append " " (join_parts (q ∷ ps)))

module _ (fmt : Format) (os : Os) where
  unfoldable pub log_entry_string : LogEntry → String
  unfolding join_parts
  log_entry_string e = join_parts (
      keep (λ s. not (is_blank (fmt.trim_space s)))
        (e.cert_subject
          ∷ e.issuer
          ∷ e.fingerprint
          ∷ e.subject
          ∷ fmt.itoa e.index
          ∷ e.uuid
          ∷ fmt.oid_string e.oid_extension
          ∷ e.extension_value
          ∷ []))

  -- What is written for an entry in a format: nothing in a format that is neither text nor JSON.
  unfoldable pub entry_text : String → LogEntry → Result (Option String)
  unfolding log_entry_string
  entry_text format e =
      if format == "text"
      then ok (some (text_append (log_entry_string e) "\n"))
      else if format == "json"
      then elim (context "failed to marshal identity" (fmt.marshal_entry e)) [
        | ok s ↦ ok (some (text_append s "\n"))
        | err x ↦ err x
        | panic p ↦ panic p
      ]
      else ok none

  -- Opening the file creates it.
  unfoldable pub write_identity : String → String → LogEntry → Disk → Written
  unfolding entry_text append_text
  write_identity file format e disk = elim (os.open_append file) [
    | some x ↦ (err (wrap "failed to open identities file" x), disk)
    | none ↦
        let opened = put file (or_empty (disk file)) disk in
        elim (entry_text format e) [
          | ok (some text) ↦
              then_on "failed to write to file" (append_text os file text opened) (λ d. (ok tt, d))
          | ok none ↦ (ok tt, opened)
          | err x ↦ (err x, opened)
          | panic p ↦ (panic p, opened)
        ]
  ]

  unfoldable pub write_identity_metadata : String → IdentityMetadata → Disk → Written
  unfolding write_file
  write_identity_metadata file metadata disk =
      elim (context "failed to marshal identity metadata" (fmt.marshal_metadata metadata)) [
        | ok text ↦
            then_on "failed to write to file" (write_file os file text disk) (λ d. (ok tt, d))
        | err x ↦ (err x, disk)
        | panic p ↦ (panic p, disk)
      ]

  -- The loop over the entries; `last` is what follows it.
  unfoldable pub write_entries : String → String → List LogEntry → (Disk → Written) → Disk → Written
  unfolding write_identity
  write_entries file format [] last disk = last disk
  write_entries file format (e ∷ es) last disk =
      then_on "failed to write entry" (write_identity file format e disk)
        (λ d. write_entries file format es last d)

  unfoldable pub write_matched_identity_entries :
      String → String → List LogEntry → Option String → ℤ → Disk → Written
  unfolding write_entries write_identity_metadata
  write_matched_identity_entries file format matched none end_index disk =
      write_entries file format matched (λ d. (ok tt, d)) disk
  write_matched_identity_entries file format matched (some metadata_file) end_index disk =
      write_entries file format matched
        (λ d.
          then_on "failed to write identity metadata"
            (write_identity_metadata metadata_file (record { latest_index = end_index }) d)
            (λ d'. (ok tt, d')))
        disk
