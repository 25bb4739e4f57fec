-- ===== src/Api/Schedule.antt =====
-- src/eset_incident_ai/infrastructure/queue/celery_app.py: which task the queue starts when. A `crontab`
-- is the texts of its hour and of its minute; an hour that is not given is every hour.
use eset_incident_ai.Prelude.{ℕ, String, List, [], ◌∷◌, concat}
use eset_incident_ai.Settings.{Settings}

pub record Crontab : Type 0 where
  pub hour : String
  pub minute : String

pub record Entry : Type 0 where
  pub name : String
  pub task : String
  pub schedule : Crontab
  pub args : List ℕ

-- `celery_app.conf.beat_schedule`.
abbrev pub beat_schedule : (ℕ → String) → Settings → List Entry
beat_schedule decimal s =
    record {
      name = "daily-eset-incident-notification";
      task = "eset_incident_ai.collect_and_notify_incidents";
      schedule = record {
        hour = decimal s.incident_notify_cron_hour;
        minute = decimal s.incident_notify_cron_minute;
      };
      args = s.incident_notify_limit ∷ [];
    }
    ∷ record {
      name = "periodic-eset-detection-notification";
      task = "eset_incident_ai.collect_and_notify_detections";
      schedule = record {
        hour = "*";
        minute = concat "*/" (decimal s.detection_notify_cron_interval_minutes);
      };
      args = [];
    }
    ∷ []
