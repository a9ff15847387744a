-- ===== src/Identity/Group.antt =====
-- CreateMonitoredIdentities. The map of groups is a list of them; the code ranges over it in no
-- fixed order, here it is the order in which the groups were opened.
use rekor_monitor.Base.{
  ◌≡◌, refl, sym, ap, ◌∙◌, Bool, false, ◌&&◌, String, List, [], ◌∷◌, ◌++◌, append-nil, append_assoc,
  arith, any, keep, keep-true, keep-false, All, Bool-cases, inl, inr, if◌then◌else◌,
}
use rekor_monitor.Base.Classes.{◌==◌, string_comparable}
use rekor_monitor.Identity.{
  LogEntry, MatchedIdentityType, cert_subject, extension_value, fingerprint, subject, other,
  MonitoredIdentity,
}

value_of_type : MatchedIdentityType → LogEntry → String
value_of_type cert_subject e = e.cert_subject
value_of_type extension_value e = e.extension_value
value_of_type fingerprint e = e.fingerprint
value_of_type subject e = e.subject
value_of_type (other s) e = ""

unfoldable pub identity_value : LogEntry → String
unfolding value_of_type
identity_value e = value_of_type e.matched_identity_type e

-- Whether the matched identity of an entry is among the monitored ones.
abbrev pub is_monitored : List String → LogEntry → Bool
is_monitored ids e = any (λ i. i == e.matched_identity) ids

-- `m[value] = append(m[value], entry)`
unfoldable pub insert_entry : String → LogEntry → List MonitoredIdentity → List MonitoredIdentity
insert_entry v e [] = record { identity = v; found_identity_entries = e ∷ [] } ∷ []
insert_entry v e (g ∷ gs) =
    let rest = insert_entry v e gs in
    if g.identity == v
    then record g { found_identity_entries = g.found_identity_entries ++ (e ∷ []) } ∷ gs
    else g ∷ rest

group_loop : List String → List LogEntry → List MonitoredIdentity → List MonitoredIdentity
unfolding insert_entry identity_value
group_loop ids [] groups = groups
group_loop ids (e ∷ es) groups =
    group_loop ids es
      (if is_monitored ids e then insert_entry (identity_value e) e groups else groups)

unfoldable pub create_monitored_identities : List LogEntry → List String → List MonitoredIdentity
unfolding group_loop
create_monitored_identities entries ids = group_loop ids entries []

-- The entries of the group of a value, none if there is no group.
abbrev pub group_of : String → List MonitoredIdentity → List LogEntry
group_of v [] = []
group_of v (g ∷ gs) = if g.identity == v then g.found_identity_entries else group_of v gs

-- No two groups have the same value.
abbrev pub Distinct : List MonitoredIdentity → Type 0
Distinct [] = Unit
Distinct (g ∷ gs) = All (λ h. (g.identity == h.identity) ≡ false) gs × Distinct gs

abbrev belongs : List String → String → LogEntry → Bool
belongs ids v e = is_monitored ids e && identity_value e == v

group_of-insert_entry :
    (v w : String) (e : LogEntry) (gs : List MonitoredIdentity)
    → group_of v (insert_entry w e gs)
      ≡ (if w == v then group_of v gs ++ (e ∷ []) else group_of v gs)
unfolding insert_entry
group_of-insert_entry v w e [] = refl
group_of-insert_entry v w e (g ∷ gs) = ground (
  arith,
  string_comparable.same_iff g.identity w,
  string_comparable.same_iff g.identity v,
  string_comparable.same_iff w v,
  group_of-insert_entry v w e gs,
)

away-insert_entry :
    (v w : String) (e : LogEntry) (gs : List MonitoredIdentity)
    → (v == w) ≡ false
    → All (λ h. (v == h.identity) ≡ false) gs
    → All (λ h. (v == h.identity) ≡ false) (insert_entry w e gs)
unfolding insert_entry
away-insert_entry v w e [] n h = (n, tt)
away-insert_entry v w e (g ∷ gs) n h = ground (arith, away-insert_entry v w e gs n h.1)

insert_entry-Distinct :
    (w : String) (e : LogEntry) (gs : List MonitoredIdentity)
    → Distinct gs
    → Distinct (insert_entry w e gs)
unfolding insert_entry
insert_entry-Distinct w e [] h = (tt, tt)
insert_entry-Distinct w e (g ∷ gs) h =
    ground (arith, insert_entry-Distinct w e gs h.1, away-insert_entry g.identity w e gs)

group_loop-keep :
    (ids : List String) (v : String) (es : List LogEntry) (groups : List MonitoredIdentity)
    → group_of v (group_loop ids es groups) ≡ group_of v groups ++ keep (belongs ids v) es
unfolding group_loop
group_loop-keep ids v [] groups = sym (append-nil (group_of v groups))
group_loop-keep ids v (e ∷ es) groups = elim (Bool-cases (is_monitored ids e)) [
  | inl monitored ↦
      rw
        (
          monitored,
          group_loop-keep ids v es (insert_entry (identity_value e) e groups),
          group_of-insert_entry v (identity_value e) e groups,
        )
        (elim (Bool-cases (identity_value e == v)) [
          | inl same ↦ rw (same, append_assoc, keep-true (belongs ids v) e es (ground arith))
          | inr differs ↦ rw (differs, keep-false (belongs ids v) e es (ground arith))
        ])
  | inr skipped ↦
      rw (skipped, group_loop-keep ids v es groups, keep-false (belongs ids v) e es (ground arith))
]

group_loop-Distinct :
    (ids : List String) (es : List LogEntry) (groups : List MonitoredIdentity)
    → Distinct groups
    → Distinct (group_loop ids es groups)
unfolding group_loop
group_loop-Distinct ids [] groups h = h
group_loop-Distinct ids (e ∷ es) groups h =
    group_loop-Distinct ids es _
      (ground (arith, insert_entry-Distinct (identity_value e) e groups h))

-- Whether a match of this kind is for the text `v`: the subject of the certificate, the value of the
-- extension, the fingerprint or the subject, and no text for any other kind.
abbrev pub has_value : MatchedIdentityType → LogEntry → String → Bool
has_value cert_subject e v = e.cert_subject == v
has_value extension_value e v = e.extension_value == v
has_value fingerprint e v = e.fingerprint == v
has_value subject e v = e.subject == v
has_value (other s) e v = "" == v

value_of_type_lem :
    (t : MatchedIdentityType) (e : LogEntry) (v : String)
    → (value_of_type t e == v) ≡ has_value t e v
unfolding value_of_type
value_of_type_lem cert_subject e v = refl
value_of_type_lem extension_value e v = refl
value_of_type_lem fingerprint e v = refl
value_of_type_lem subject e v = refl
value_of_type_lem (other s) e v = refl

abbrev pub matched_with : String → LogEntry → Bool
matched_with v e = has_value e.matched_identity_type e v

pub identity_value_lem : (e : LogEntry) (v : String) → (identity_value e == v) ≡ matched_with v e
unfolding identity_value
identity_value_lem e v = value_of_type_lem e.matched_identity_type e v

keep_same :
    (f g : LogEntry → Bool) (es : List LogEntry)
    → ((e : LogEntry) → f e ≡ g e)
    → keep f es ≡ keep g es
keep_same f g [] h = refl
keep_same f g (e ∷ es) h = ground (arith, h e, keep_same f g es h)

keep_matched :
    (ids : List String) (v : String) (es : List LogEntry)
    → keep (belongs ids v) es ≡ keep (λ e. is_monitored ids e && matched_with v e) es
keep_matched ids v es =
    keep_same (belongs ids v) (λ e. is_monitored ids e && matched_with v e) es
      (λ e. ap (λ b. is_monitored ids e && b) (identity_value_lem e v))

-- The matched entries are grouped by the value that they matched with, which is the subject of the
-- certificate, the value of the extension, the fingerprint or the subject, by the kind of the match:
-- the group of a value holds, in order, exactly those entries with this value whose matched identity
-- is monitored, and no two groups have the same value.
pub create_monitored_identities-keep :
    (entries : List LogEntry) (ids : List String) (v : String)
    → (group_of v (create_monitored_identities entries ids)
        ≡ keep (λ e. is_monitored ids e && matched_with v e) entries)
      × Distinct (create_monitored_identities entries ids)
unfolding create_monitored_identities
create_monitored_identities-keep entries ids v = (
  group_loop-keep ids v entries [] ∙ keep_matched ids v entries,
  group_loop-Distinct ids entries [] tt,
)
