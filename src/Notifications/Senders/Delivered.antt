-- ===== src/Notifications/Senders/Delivered.antt =====
-- What TriggerNotifications has delivered when it succeeds.
use Prim.Native.String.{◌++◌ as text_append}
use rekor_monitor.Base.{
  ◌≡◌, refl, subst, Option, none, some, Error, ok, String, List, [], ◌∷◌, All, arith, Option-cases,
  inl, inr, ◌⊎◌,
}
use rekor_monitor.Notifications.{
  NotificationData, NotificationPlatform, github_issue, email_smtp, send_grid, mailgun,
  trigger_notifications,
}
use rekor_monitor.Notifications.Senders.{
  Attempt, made, refused, ◌>>=◌, unless, Delivery, created_issue, smtp_mail, mailgun_mail,
  send_grid_mail, Sending, to_notification_header, to_notification_body, generate_email_body,
  generate_github_issue_body, prepare, send,
}

abbrev pub subject_of : Delivery → String
subject_of (created_issue c owner name r) = r.title
subject_of (smtp_mail host opts l) = l.subject
subject_of (mailgun_mail domain key l) = l.subject
subject_of (send_grid_mail key from to subject html) = subject

abbrev pub text_of : Delivery → String
text_of (created_issue c owner name r) = r.body
text_of (smtp_mail host opts l) = l.html
text_of (mailgun_mail domain key l) = l.html
text_of (send_grid_mail key from to subject html) = html

abbrev pub in_html : String → String → String
in_html header body =
    text_append header (text_append "\n" (text_append "<pre>" (text_append body "</pre>")))

abbrev pub in_issue : String → String → String
in_issue header body =
    text_append header (text_append "\n" (text_append "```\n" (text_append body "\n```")))

-- A printed body on the lines below a header: preformatted in HTML, fenced in an issue.
abbrev pub framed : Delivery → String → String → String
framed (created_issue c owner name r) header body = in_issue header body
framed (smtp_mail host opts l) header body = in_html header body
framed (mailgun_mail domain key l) header body = in_html header body
framed (send_grid_mail key from to subject html) header body = in_html header body

-- A delivery goes to where the configuration of the platform says.
abbrev pub IsAddressed : NotificationPlatform → Delivery → Type 0
IsAddressed (github_issue i) (created_issue c owner name r) =
    (owner ≡ i.repository_owner) × (name ≡ i.repository_name) × (r.assignee ≡ i.assignee_username)
IsAddressed (email_smtp i) (smtp_mail host opts l) =
    (host ≡ i.smtp_host_url)
    × (l.sender ≡ i.sender_email_address)
    × (l.recipient ≡ i.recipient_email_address)
IsAddressed (mailgun i) (mailgun_mail domain key l) =
    (domain ≡ i.mailgun_domain_name)
    × (key ≡ i.mailgun_api_key)
    × (l.sender ≡ i.sender_email_address)
    × (l.recipient ≡ i.recipient_email_address)
IsAddressed (send_grid i) (send_grid_mail key from to subject html) =
    (key ≡ i.send_grid_api_key)
    × (from.address ≡ i.sender_email_address)
    × (to.address ≡ i.recipient_email_address)
IsAddressed _ _ = ⊥

abbrev IfMade : {A : Type 0} → (A → Type 0) → Attempt A → Type 0
IfMade P (made a) = P a
IfMade P (refused e) = Unit

IfMade-bind :
    {A B : Type 0} (P : B → Type 0) (r : Attempt A) (f : A → Attempt B)
    → ((a : A) → r ≡ made a → IfMade P (f a))
    → IfMade P (r >>= f)
IfMade-bind P (made a) f h = h a refl
IfMade-bind P (refused e) f h = tt

IfMade-unless :
    {A : Type 0} (P : A → Type 0) (o : Option Error) (r : Attempt A)
    → IfMade P r
    → IfMade P (unless o r)
IfMade-unless P none r h = h
IfMade-unless P (some e) r h = tt

IfMade-of : {A : Type 0} (P : A → Type 0) (r : Attempt A) (a : A) → IfMade P r → r ≡ made a → P a
IfMade-of P r a h e = subst (IfMade P) e h

Attempt-cases :
    {A : Type 0} (r : Attempt A) → ((a : A) × (r ≡ made a)) ⊎ ((e : Error) × (r ≡ refused e))
Attempt-cases (made a) = inl (a, refl)
Attempt-cases (refused e) = inr (e, refl)

module _ (lib : Sending) (content : NotificationData) where
  -- A delivery that has the subject of the notification and the text of its payload.
  pub record Announces (m : Delivery) : Type 0 where
    pub subject : subject_of m ≡ content.context.subject
    pub body : String
    pub printed : to_notification_body lib content.payload ≡ made body
    pub text : text_of m ≡ framed m (to_notification_header content.payload) body

  -- What the platform handed to its service, which accepted it.
  pub record IsDelivered (p : NotificationPlatform) : Type 0 where
    pub delivery : Delivery
    pub handed : prepare lib p content ≡ made delivery
    pub accepted : lib.deliver delivery ≡ none
    pub addressed : IsAddressed p delivery
    pub announces : Announces delivery

  Right : NotificationPlatform → Delivery → Type 0
  Right p m = IsAddressed p m × Announces m

  -- The text of a delivery: the payload's body, printed and framed.
  abbrev Text : (String → String) → String → Type 0
  Text frame text =
      (body : String) × (to_notification_body lib content.payload ≡ made body) × (text ≡ frame body)

  generate_email_body-Text :
      IfMade
        (Text (in_html (to_notification_header content.payload)))
        (generate_email_body lib content)
  unfolding generate_email_body
  generate_email_body-Text =
      IfMade-bind _ (to_notification_body lib content.payload) _ λ body e. (body, e, refl)

  generate_github_issue_body-Text :
      IfMade
        (Text (in_issue (to_notification_header content.payload)))
        (generate_github_issue_body lib content)
  unfolding generate_github_issue_body
  generate_github_issue_body-Text =
      IfMade-bind _ (to_notification_body lib content.payload) _ λ body e. (body, e, refl)

  prepare-Right : (p : NotificationPlatform) → IfMade (Right p) (prepare lib p content)
  unfolding prepare Right
  prepare-Right (github_issue i) =
      IfMade-bind (Right (github_issue i)) (generate_github_issue_body lib content) _ λ text e.
        let (body, printed, is_text) = IfMade-of _ _ text generate_github_issue_body-Text e in
        (
          (refl, refl, refl),
          record { subject = refl; body = body; printed = printed; text = is_text },
        )
  prepare-Right (email_smtp i) =
      let P : Delivery → Type 0 = Right (email_smtp i) in
      IfMade-unless P (lib.check_from i.sender_email_address) _ (
        IfMade-unless P (lib.check_to i.recipient_email_address) _ (
          IfMade-bind P (generate_email_body lib content) _ λ text e.
            let (body, printed, is_text) = IfMade-of _ _ text generate_email_body-Text e in
            IfMade-unless P (lib.new_client i.smtp_host_url _) _ (
              (refl, refl, refl),
              record { subject = refl; body = body; printed = printed; text = is_text },
            )))
  prepare-Right (mailgun i) =
      IfMade-bind (Right (mailgun i)) (generate_email_body lib content) _ λ text e.
        let (body, printed, is_text) = IfMade-of _ _ text generate_email_body-Text e in
        (
          (refl, refl, refl, refl),
          record { subject = refl; body = body; printed = printed; text = is_text },
        )
  prepare-Right (send_grid i) =
      IfMade-bind (Right (send_grid i)) (generate_email_body lib content) _ λ text e.
        let (body, printed, is_text) = IfMade-of _ _ text generate_email_body-Text e in
        (
          (refl, refl, refl),
          record { subject = refl; body = body; printed = printed; text = is_text },
        )

  send-IsDelivered : (p : NotificationPlatform) → send lib p content ≡ none → IsDelivered p
  unfolding send Right
  send-IsDelivered p h = elim (Attempt-cases (prepare lib p content)) [
    | inl (m, e) ↦
        let (addressed, announces) =
          IfMade-of (Right p) (prepare lib p content) m (prepare-Right p) e in
        record {
          delivery = m;
          handed = e;
          accepted = ground (arith, e, h);
          addressed = addressed;
          announces = announces;
        }
    | inr (x, e) ↦ absurd (ground (arith, e, h))
  ]

  -- If TriggerNotifications succeeds, every platform of the pool was sent to, once and in order, and
  -- its service accepted a delivery that goes to where the platform's configuration says, with the
  -- subject of the notification and, as its text, the payload's header and printed body.
  pub trigger_notifications-IsDelivered :
      (pool : List NotificationPlatform)
      → (trigger_notifications (send lib) pool content).1 ≡ ok tt
      → ((trigger_notifications (send lib) pool content).0 ≡ pool) × All IsDelivered pool
  unfolding trigger_notifications
  trigger_notifications-IsDelivered [] h = (refl, tt)
  trigger_notifications-IsDelivered (p ∷ ps) h = elim (Option-cases (send lib p content)) [
    | inl e ↦
        let rest = trigger_notifications-IsDelivered ps (ground (arith, e, h)) in
        (ground (arith, e, rest.0), (send-IsDelivered p e, rest.1))
    | inr (x, e) ↦ absurd (ground (arith, e, h))
  ]
