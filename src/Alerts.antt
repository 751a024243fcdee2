-- ===== src/Alerts.antt =====
-- shared/src/alerts.ts: alert rules, the alerts that are on and the log of their changes.
pub mod Rules
pub mod Ranking
pub mod Store
use nats_explorer.Prelude.{ℕ, Text, List, Bool, Option}
use nats_explorer.Prelude.Int.{ℤ}

pub data AlertSeverity : Type 0 where
  info warning critical : AlertSeverity

pub data AlertState : Type 0 where
  firing stale rate level stuck resolved : AlertState

-- Seconds and counts are integers, since a form may hold negative ones. Of the two thresholds only
-- whether they are there is read. The shape of the webhook and the reduction over the window are left out
-- of the rule, and of alerts and events what only the views print.
pub record AlertRule : Type 0 where
  pub id : Text
  pub name : Text
  pub pattern : Text
  pub expr : Option Text
  pub stale_after : Option ℤ
  pub stale_auto : Option Bool
  pub severity : AlertSeverity
  pub webhook : Option Text
  pub email : Option Text
  pub enabled : Bool
  pub window : Option ℤ
  pub min_count : Option ℤ
  pub max_count : Option ℤ
  pub field : Option Text
  pub above : Option ℤ
  pub below : Option ℤ
  pub unchanged_for : Option ℤ
  pub muted_until : Option ℕ

pub record Alert : Type 0 where
  pub key : Text
  pub rule_id : Text
  pub rule_name : Text
  pub conn_id : Text
  pub subject : Text
  pub state : AlertState
  pub severity : AlertSeverity
  pub since : ℕ
  pub muted : Option Bool
  pub acked_at : Option ℕ

pub record AlertEvent : Type 0 where
  pub time : ℕ
  pub rule_id : Text
  pub rule_name : Text
  pub conn_id : Text
  pub subject : Text
  pub state : AlertState
  pub severity : AlertSeverity
  pub preview : Option Text

pub record MaintenanceWindow : Type 0 where
  pub id : Text
  pub name : Text
  pub from : ℕ
  pub to : ℕ
