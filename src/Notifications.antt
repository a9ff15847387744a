-- ===== src/Notifications.antt =====
-- pkg/notifications: the configuration of a monitor and its validation, the pool of platforms, and
-- TriggerNotifications, for which the Send method of the platforms is an argument.
pub mod Validate
pub mod Senders
pub mod Tests
use rekor_monitor.Base.{
  Bool, Option, none, some, Error, Result, ok, err, wrap, String, List, [], ◌∷◌, ◌++◌,
  if◌then◌else◌,
}
use rekor_monitor.Base.Int.{ℤ}
use rekor_monitor.Extensions.{OidMatchers}
use rekor_monitor.Identity.{CertificateIdentity, MonitoredIdentity, FailedLogEntry}

pub record NotificationContext : Type 0 where
  pub monitor_type : String
  pub subject : String

-- The two types that convert themselves to a notification body.
pub data Payload : Type 0 where
  monitored_identity_list : List MonitoredIdentity → Payload
  failed_log_entry_list : List FailedLogEntry → Payload

pub record NotificationData : Type 0 where
  pub context : NotificationContext
  pub payload : Payload

pub record GithubIssueInput : Type 0 where
  pub assignee_username : String
  pub repository_owner : String
  pub repository_name : String
  pub authentication_token : String
  -- a custom client, if there is one
  pub github_client : Option String

pub record EmailNotificationInput : Type 0 where
  pub recipient_email_address : String
  pub sender_email_address : String
  pub sender_smtp_username : String
  pub sender_smtp_password : String
  pub smtp_host_url : String
  pub smtp_custom_options : List String

pub record MailgunNotificationInput : Type 0 where
  pub recipient_email_address : String
  pub sender_email_address : String
  pub mailgun_api_key : String
  pub mailgun_domain_name : String

pub record SendGridNotificationInput : Type 0 where
  pub recipient_name : String
  pub recipient_email_address : String
  pub sender_name : String
  pub sender_email_address : String
  pub send_grid_api_key : String

-- The types that implement the interface NotificationPlatform.
pub data NotificationPlatform : Type 0 where
  github_issue : GithubIssueInput → NotificationPlatform
  email_smtp : EmailNotificationInput → NotificationPlatform
  send_grid : SendGridNotificationInput → NotificationPlatform
  mailgun : MailgunNotificationInput → NotificationPlatform

pub record ConfigMonitoredValues : Type 0 where
  pub certificate_identities : List CertificateIdentity
  pub fingerprints : List String
  pub subjects : List String
  pub oid_matchers : OidMatchers

pub record IdentityMonitorConfiguration : Type 0 where
  pub start_index : Option ℤ
  pub end_index : Option ℤ
  pub monitored_values : ConfigMonitoredValues
  pub output_identities_file : String
  pub output_identities_format : String
  pub log_info_file : String
  pub identity_metadata_file : Option String
  pub github_issue : Option GithubIssueInput
  pub email_notification_smtp : Option EmailNotificationInput
  pub email_notification_mailgun : Option MailgunNotificationInput
  pub email_notification_send_grid : Option SendGridNotificationInput
  pub ca_roots_file : String
  pub ca_intermediates_file : String

abbrev pub create_notification_context : String → String → NotificationContext
create_notification_context monitor_type subject = record {
  monitor_type = monitor_type;
  subject = subject;
}

abbrev append_platform :
    {A : Type 0} → (A → NotificationPlatform) → Option A → List NotificationPlatform
append_platform f none = []
append_platform f (some input) = f input ∷ []

unfoldable pub create_notification_pool : IdentityMonitorConfiguration → List NotificationPlatform
create_notification_pool config =
    append_platform github_issue config.github_issue
    ++ (append_platform email_smtp config.email_notification_smtp
        ++ (append_platform send_grid config.email_notification_send_grid
            ++ append_platform mailgun config.email_notification_mailgun))

-- The platforms that were sent to, in order, and how the call ended.
unfoldable pub trigger_notifications :
    (NotificationPlatform → NotificationData → Option Error)
    → List NotificationPlatform
    → NotificationData
    → List NotificationPlatform × Result (Unit {0})
trigger_notifications send [] content = ([], ok tt)
trigger_notifications send (p ∷ ps) content = elim (send p content) [
  | some e ↦ (p ∷ [], err (wrap "error sending notification from platform" e))
  | none ↦ (let (sent, r) = trigger_notifications send ps content in (p ∷ sent, r))
]
