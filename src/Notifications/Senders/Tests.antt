-- ===== src/Notifications/Senders/Tests.antt =====
-- An issue and a mail on one failed entry.
use rekor_monitor.Base.{◌≡◌, refl, none, List, [], ◌∷◌, All}
use rekor_monitor.Notifications.{
  NotificationData, failed_log_entry_list, NotificationPlatform, github_issue, mailgun,
  trigger_notifications,
}
use rekor_monitor.Notifications.Senders.{made, Sending, send}
use rekor_monitor.Notifications.Senders.Delivered.{IsDelivered, trigger_notifications-IsDelivered}

abbrev pub working : Sending
working = record {
  marshal_identities = λ l. made "[1]";
  marshal_failed = λ l. made "[2]";
  check_from = λ a. none;
  check_to = λ a. none;
  new_client = λ host opts. none;
  deliver = λ d. none;
}

abbrev failed : NotificationData
failed = record {
  context = record { monitor_type = "rekor-monitor"; subject = "results" };
  payload = failed_log_entry_list [];
}

abbrev pool : List NotificationPlatform
pool =
    github_issue (record {
      assignee_username = "alice";
      repository_owner = "sigstore";
      repository_name = "rekor-monitor";
      authentication_token = "token";
      github_client = none;
    })
    ∷ mailgun (record {
      recipient_email_address = "alice@example.com";
      sender_email_address = "monitor@example.com";
      mailgun_api_key = "key";
      mailgun_domain_name = "example.com";
    })
    ∷ []

trigger_notifications-IsDelivered_example :
    ((trigger_notifications (send working) pool failed).0 ≡ pool)
    × All (IsDelivered working failed) pool
unfolding trigger_notifications send
trigger_notifications-IsDelivered_example =
    trigger_notifications-IsDelivered working failed pool refl
