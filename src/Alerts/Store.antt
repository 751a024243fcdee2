-- ===== src/Alerts/Store.antt =====
-- client/src/store/alerts.ts: the rules, the alerts that are on and the log on the page. What a call of the
-- server gives back is an argument of the operation that makes the call.
pub mod Log
pub mod Failing
use nats_explorer.Prelude.{
  ℕ, Text, text_beq, List, [], ◌∷◌, ◌++◌, Bool, true, false, not, Option, none, some, ◌==◌, text_eq,
  filter, take, length, if◌then◌else◌, nat_beq,
}
use nats_explorer.Messages.{or_default}
use nats_explorer.Subjects.Match.{is_empty}
use nats_explorer.Alerts.{AlertRule, Alert, AlertEvent, MaintenanceWindow}

pub data Answer {ℓ} (A : Type ℓ) : Type ℓ where
  answered : A → Answer A
  refused : (error : Text) → Answer A

-- An answer that says nothing.
pub data Done : Type 0 where
  done : Done

pub record AlertsState : Type 0 where
  pub rules : List AlertRule
  pub active : List Alert
  pub events : List AlertEvent
  pub loading : Bool
  pub error : Option Text
  pub maintenance : List MaintenanceWindow

-- What an operation leaves, and the error that it passes on to its caller.
pub record Outcome : Type 0 where
  pub state : AlertsState
  pub thrown : Option Text

abbrev pub initial_alerts : AlertsState
initial_alerts = record {
  rules = [];
  active = [];
  events = [];
  loading = false;
  error = none;
  maintenance = [];
}

unfoldable pub begin_load : AlertsState → AlertsState
begin_load s = record s { loading = true }

-- The three lists that `load` asks for; each may be missing in an answer.
pub record Loaded : Type 0 where
  pub rules : Option (List AlertRule)
  pub active : Option (List Alert)
  pub events : Option (List AlertEvent)

unfoldable pub load : Answer Loaded → AlertsState → AlertsState
load (answered l) s = record s {
  rules = or_default [] l.rules;
  active = or_default [] l.active;
  events = or_default [] l.events;
  loading = false;
  error = none;
}
load (refused error) s = record s { loading = false; error = some error }

unfoldable pub merge_events : Option (List AlertEvent) → List AlertEvent → List AlertEvent
merge_events none log = log
merge_events (some events) log = if is_empty events then log else take 500 (events ++ log)

unfoldable pub apply : List Alert → Option (List AlertEvent) → AlertsState → AlertsState
unfolding merge_events
apply active events s = record s { active = active; events = merge_events events s.events }

abbrev pub quiet : AlertsState → Outcome
quiet s = record { state = s; thrown = none }

abbrev pub throwing : Text → AlertsState → Outcome
throwing error s = record { state = s; thrown = some error }

-- The list is read again after the rule is saved.
unfoldable pub save : Answer Done → Answer (Option (List AlertRule)) → AlertsState → Outcome
save (refused error) list s = throwing error s
save (answered u) (refused error) s = throwing error s
save (answered u) (answered rules) s = quiet (record s { rules = or_default [] rules })

unfoldable pub remove : Text → Answer Done → AlertsState → Outcome
unfolding text_beq
remove id (refused error) s = throwing error s
remove id (answered u) s = quiet (record s { rules = filter (λ r. not (r.id == id)) s.rules })

unfoldable pub ack : Answer (Option (List Alert)) → AlertsState → Outcome
ack (refused error) s = throwing error s
ack (answered active) s = quiet (record s { active = or_default [] active })

abbrev pub until_of : Option ℕ → Option ℕ
until_of none = none
until_of (some t) = if nat_beq t 0 then none else some t

-- The rule that `mute` sends to be saved.
unfoldable pub muted_rule : AlertRule → Option ℕ → AlertRule
muted_rule rule until = record rule { muted_until = until_of until }

unfoldable pub mute :
    (AlertRule → Answer Done)
    → Answer (Option (List AlertRule))
    → AlertRule
    → Option ℕ
    → AlertsState
    → Outcome
unfolding muted_rule save
mute server list rule until s = save (server (muted_rule rule until)) list s

unfoldable pub load_maintenance :
    Answer (Option (List MaintenanceWindow)) → AlertsState → AlertsState
load_maintenance (answered windows) s = record s { maintenance = or_default [] windows }
load_maintenance (refused error) s = record s { error = some error }

unfoldable pub save_maintenance : Answer (Option (List MaintenanceWindow)) → AlertsState → Outcome
save_maintenance (answered windows) s = quiet (record s { maintenance = or_default [] windows })
save_maintenance (refused error) s = throwing error s

pub data AlertAction : Type 0 where
  begins : AlertAction
  loads : Answer Loaded → AlertAction
  applies : List Alert → Option (List AlertEvent) → AlertAction
  saves : Answer Done → Answer (Option (List AlertRule)) → AlertAction
  removes : Text → Answer Done → AlertAction
  acks : Answer (Option (List Alert)) → AlertAction
  mutes :
      (AlertRule → Answer Done)
      → Answer (Option (List AlertRule))
      → AlertRule
      → Option ℕ
      → AlertAction
  loads_maintenance : Answer (Option (List MaintenanceWindow)) → AlertAction
  saves_maintenance : Answer (Option (List MaintenanceWindow)) → AlertAction

unfoldable pub act : AlertAction → AlertsState → Outcome
unfolding begin_load load apply save remove ack mute load_maintenance save_maintenance
act begins s = quiet (begin_load s)
act (loads a) s = quiet (load a s)
act (applies active events) s = quiet (apply active events s)
act (saves a list) s = save a list s
act (removes id a) s = remove id a s
act (acks a) s = ack a s
act (mutes server list rule until) s = mute server list rule until s
act (loads_maintenance a) s = quiet (load_maintenance a s)
act (saves_maintenance a) s = save_maintenance a s

unfoldable pub act_all : List AlertAction → AlertsState → AlertsState
act_all [] s = s
act_all (a ∷ actions) s = act_all actions (act a s).state
