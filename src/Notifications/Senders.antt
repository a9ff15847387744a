-- ===== src/Notifications/Senders.antt =====
-- The Send methods of pkg/notifications/email.go, github_issues.go, mailgun.go and sendgrid.go, and
-- the texts of pkg/identity/identity.go that they send. What they hand to a service is a `Delivery`;
-- the services and the encoder are a record of calls.
pub mod Delivered
pub mod Tests
use Prim.Native.String.{◌++◌ as text_append}
use rekor_monitor.Base.{Option, none, some, Error, String, List, [], ◌∷◌, ◌++◌}
use rekor_monitor.Identity.{MonitoredIdentity, FailedLogEntry}
use rekor_monitor.Notifications.{
  NotificationData, Payload, monitored_identity_list, failed_log_entry_list, GithubIssueInput,
  EmailNotificationInput, MailgunNotificationInput, SendGridNotificationInput, NotificationPlatform,
  github_issue, email_smtp, send_grid, mailgun,
}

-- What a call returns that can fail but does not panic.
pub data Attempt (A : Type 0) : Type 0 where
  made : A → Attempt A
  refused : Error → Attempt A

infixl 5 ◌>>=◌
abbrev pub ◌>>=◌ : {A B : Type 0} → Attempt A → (A → Attempt B) → Attempt B
made a >>= f = f a
refused e >>= f = refused e

-- `if err := …; err != nil { return err }`, and then the rest
abbrev pub unless : {A : Type 0} → Option Error → Attempt A → Attempt A
unless none rest = rest
unless (some e) rest = refused e

pub data GithubClient : Type 0 where
  with_auth_token custom_client : String → GithubClient

pub record IssueRequest : Type 0 where
  pub title : String
  pub body : String
  pub labels : List String
  pub assignee : String

pub data MailOption : Type 0 where
  with_username with_password custom_option : String → MailOption

-- A mail with an HTML body.
pub record Letter : Type 0 where
  pub sender : String
  pub recipient : String
  pub subject : String
  pub html : String

-- mail.Email of SendGrid
pub record Mailbox : Type 0 where
  pub name : String
  pub address : String

-- A call of a service: Issues.Create for an owner and a repository, DialAndSendWithContext of a client
-- for a host, Send of Mailgun for a domain and a key, SendWithContext of SendGrid for a key.
pub data Delivery : Type 0 where
  created_issue : GithubClient → String → String → IssueRequest → Delivery
  smtp_mail : String → List MailOption → Letter → Delivery
  mailgun_mail : String → String → Letter → Delivery
  send_grid_mail : String → Mailbox → Mailbox → String → String → Delivery

pub record Sending : Type 0 where
  -- json.MarshalIndent
  pub marshal_identities : List MonitoredIdentity → Attempt String
  pub marshal_failed : List FailedLogEntry → Attempt String
  -- Msg.From, Msg.To and mail.NewClient
  pub check_from : String → Option Error
  pub check_to : String → Option Error
  pub new_client : String → List MailOption → Option Error
  pub deliver : Delivery → Option Error

abbrev custom_options : List String → List MailOption
custom_options [] = []
custom_options (o ∷ os) = custom_option o ∷ custom_options os

unfoldable pub to_notification_header : Payload → String
to_notification_header (monitored_identity_list l) =
    "Found the following pairs of monitored identities and matching log entries: "
to_notification_header (failed_log_entry_list l) = "Failed to parse the following log entries: "

-- The default client, where there is no custom one.
abbrev pub github_client_of : GithubIssueInput → GithubClient
github_client_of input = elim input.github_client [
  | none ↦ with_auth_token input.authentication_token
  | some c ↦ custom_client c
]

module _ (lib : Sending) where
  unfoldable pub print_monitored_identities : List MonitoredIdentity → Attempt String
  print_monitored_identities l = lib.marshal_identities l

  unfoldable pub to_notification_body : Payload → Attempt String
  unfolding print_monitored_identities
  to_notification_body (monitored_identity_list l) = print_monitored_identities l
  to_notification_body (failed_log_entry_list l) = lib.marshal_failed l

  -- strings.Join of the header and the framed body
  abbrev joined : String → String → NotificationData → Attempt String
  joined open_frame close_frame content = to_notification_body content.payload >>= λ body. made (
      text_append (to_notification_header content.payload)
        (text_append "\n" (text_append open_frame (text_append body close_frame))))

  unfoldable pub generate_email_body : NotificationData → Attempt String
  unfolding to_notification_header to_notification_body
  generate_email_body content = joined "<pre>" "</pre>" content

  unfoldable pub generate_github_issue_body : NotificationData → Attempt String
  unfolding to_notification_header to_notification_body
  generate_github_issue_body content = joined "```\n" "\n```" content

  unfoldable pub prepare_email : EmailNotificationInput → NotificationData → Attempt Delivery
  unfolding generate_email_body
  prepare_email input content = unless (lib.check_from input.sender_email_address) (
      unless (lib.check_to input.recipient_email_address) (
        generate_email_body content >>= λ html.
        let opts =
          with_username input.sender_smtp_username
          ∷ with_password input.sender_smtp_password
          ∷ custom_options input.smtp_custom_options in
        unless (lib.new_client input.smtp_host_url opts) (
          made (
            smtp_mail input.smtp_host_url opts (record {
              sender = input.sender_email_address;
              recipient = input.recipient_email_address;
              subject = content.context.subject;
              html = html;
            })))))

  unfoldable pub prepare_github_issue : GithubIssueInput → NotificationData → Attempt Delivery
  unfolding generate_github_issue_body
  prepare_github_issue input content = generate_github_issue_body content >>= λ body. made (
      created_issue (github_client_of input) input.repository_owner input.repository_name (record {
        title = content.context.subject;
        body = body;
        labels = content.context.monitor_type ∷ "automatically generated" ∷ [];
        assignee = input.assignee_username;
      }))

  unfoldable pub prepare_mailgun : MailgunNotificationInput → NotificationData → Attempt Delivery
  unfolding generate_email_body
  prepare_mailgun input content = generate_email_body content >>= λ html. made (
      mailgun_mail input.mailgun_domain_name input.mailgun_api_key (record {
        sender = input.sender_email_address;
        recipient = input.recipient_email_address;
        subject = content.context.subject;
        html = html;
      }))

  unfoldable pub prepare_send_grid : SendGridNotificationInput → NotificationData → Attempt Delivery
  unfolding generate_email_body
  prepare_send_grid input content = generate_email_body content >>= λ html. made (
      send_grid_mail input.send_grid_api_key
        (record { name = input.sender_name; address = input.sender_email_address })
        (record { name = input.recipient_name; address = input.recipient_email_address })
        content.context.subject html)

  -- What the Send method of a platform hands to its service.
  unfoldable pub prepare : NotificationPlatform → NotificationData → Attempt Delivery
  unfolding prepare_email prepare_github_issue prepare_mailgun prepare_send_grid
  prepare (github_issue input) content = prepare_github_issue input content
  prepare (email_smtp input) content = prepare_email input content
  prepare (send_grid input) content = prepare_send_grid input content
  prepare (mailgun input) content = prepare_mailgun input content

  unfoldable pub send : NotificationPlatform → NotificationData → Option Error
  unfolding prepare
  send platform content = elim (prepare platform content) [
    | made d ↦ lib.deliver d
    | refused e ↦ some e
  ]
