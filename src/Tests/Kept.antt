-- ===== src/Tests/Kept.antt =====
-- Saved connections, request templates and alerts at concrete inputs.
use mathlib.Core.List.{List, Mem}
use nats_explorer.Prelude.{
  ◌≤◌, codes, text_beq, [], ◌∷◌, ◌++◌, true, none, some, ◌≡◌, refl, All, filter, length, split_on,
}
use nats_explorer.Prelude.Strings.{texts_ne}
use nats_explorer.Prelude.Int.{pos}
use nats_explorer.Prelude.Trim.{trim}
use nats_explorer.Subjects.Match.{dot, any_rest, tokens, subject_matches}
use nats_explorer.Saved.Connections.{
  SavedConnection, nkey, new_saved_connection, to_connection_config, system_topics,
}
use nats_explorer.Saved.Connections.Secrets.{scrubbed, to_connection_config-scrubbed}
use nats_explorer.Saved.Connections.Topics.{missing, to_connection_config-topics}
use nats_explorer.Saved.Requests.{
  RequestDraft, SavedRequest, request, xml, draft_from_saved, saved_from_draft, expectation_of,
  is_named, same_norm, draft_differs,
}
use nats_explorer.Saved.Requests.Saving.{saved_from_draft-draft_from_saved}
use nats_explorer.Saved.Requests.Differing.{draft_differs-unchanged}
use nats_explorer.Alerts.{AlertSeverity, AlertRule, Alert, warning, critical, firing}
use nats_explorer.Alerts.Rules.{
  new_alert_rule, alert_rule_for_subject, validate_rule, pattern_error, condition_error,
  rest_inside, says, has_condition, bad_webhook_of, bad_email_of,
}
use nats_explorer.Alerts.Rules.Accepted.{IsAccepted}
use nats_explorer.Alerts.Rules.Accepting.{validate_rule-IsAccepted}
use nats_explorer.Alerts.Rules.Branch.{alert_rule_for_subject-matches}
use nats_explorer.Alerts.Ranking.{severity_rank, worst_severity, worst_severity-worst}
use nats_explorer.Alerts.Store.{
  AlertAction, answered, refused, initial_alerts, begins, loads, applies, saves, act, act_all,
  apply, load, merge_events, save,
}
use nats_explorer.Alerts.Store.Log.{act_all-bound}
use nats_explorer.Alerts.Store.Failing.{data_of, act_all-fails, act_all-shown_error}

-- A connection with a password that its method does not use.
abbrev plant : SavedConnection
plant = record (new_saved_connection (codes "p1")) {
  auth_method = nkey;
  pass = some (codes "secret");
  nkey_seed = some (codes "SU");
  sys_topics = λ t. some true;
}

to_connection_config-scrubbed_example :
    to_connection_config (scrubbed plant) ≡ to_connection_config plant
to_connection_config-scrubbed_example = to_connection_config-scrubbed plant

to_connection_config-topics_example :
    (to_connection_config plant).subscriptions
    ≡ (codes ">" ∷ []) ++ missing plant.sys_topics (codes ">" ∷ []) system_topics
to_connection_config-topics_example = to_connection_config-topics plant

abbrev a_draft : RequestDraft
a_draft = record {
  mode = request;
  subject = codes " orders.new ";
  payload = codes "<o/>";
  format = xml;
  headers = record { key = codes "id"; value = codes "7" } ∷ [];
  timeout = 100;
  count = 3;
  concurrency = 2;
  interval_ms = 0;
  expect_expr = [];
  expect_max_latency_ms = 40;
}

saved_from_draft-draft_from_saved_example :
    saved_from_draft 9
      (draft_from_saved (saved_from_draft 9 a_draft (codes "1") (codes "new")))
      (codes "1")
      (codes "new")
    ≡ saved_from_draft 9 a_draft (codes "1") (codes "new")
saved_from_draft-draft_from_saved_example =
    saved_from_draft-draft_from_saved 9 a_draft (codes "1") (codes "new")

abbrev a_template : SavedRequest
a_template = record {
  id = codes "1";
  name = codes "new";
  mode = request;
  subject = codes "orders.new";
  payload = codes "<o/>";
  format = some xml;
  headers = record { key = codes "id"; value = codes "7" } ∷ [];
  timeout = some 100;
  count = some 3;
  concurrency = some 2;
  interval_ms = none;
  expect = none;
  updated_at = 5;
}

draft_differs-unchanged_example :
    saved_from_draft 9 a_draft (codes "1") (codes "new") ≡ record a_template {
      headers = filter is_named a_template.headers;
      expect = expectation_of [] 40;
      updated_at = 9;
    }
unfolding draft_differs saved_from_draft same_norm is_named trim text_beq
draft_differs-unchanged_example = draft_differs-unchanged 9 a_draft a_template refl

abbrev quiet_line : AlertRule
quiet_line = record (alert_rule_for_subject (codes "r1") (codes "plant.line") true) {
  stale_after = some (pos 30);
}

validate_rule-IsAccepted_example : IsAccepted quiet_line
unfolding alert_rule_for_subject new_alert_rule validate_rule pattern_error condition_error
    rest_inside says has_condition bad_webhook_of bad_email_of trim tokens split_on text_beq
validate_rule-IsAccepted_example = validate_rule-IsAccepted quiet_line refl

alert_rule_for_subject-matches_example :
    subject_matches
      (alert_rule_for_subject (codes "r1") (codes "plant.line") true).pattern
      (codes "plant.line" ++ (dot ∷ codes "temp"))
    ≡ true
unfolding tokens split_on text_beq
alert_rule_for_subject-matches_example =
    alert_rule_for_subject-matches (codes "r1") (codes "plant.line") (codes "temp") refl
      (texts_ne (codes "plant") any_rest refl, (texts_ne (codes "line") any_rest refl, tt))

abbrev an_alert : Alert
an_alert = record {
  key = codes "k";
  rule_id = codes "r1";
  rule_name = codes "line";
  conn_id = codes "p1";
  subject = codes "plant.line";
  state = firing;
  severity = warning;
  since = 4;
  muted = none;
  acked_at = none;
}

worst_severity-worst_example :
    (w : AlertSeverity) × (worst_severity (an_alert ∷ record an_alert { severity = critical } ∷ [])
      ≡ some w)
    × All
        (λ b. severity_rank b.severity ≤ severity_rank w)
        (an_alert ∷ record an_alert { severity = critical } ∷ [])
    × ((b : Alert) × Mem b (an_alert ∷ record an_alert { severity = critical } ∷ [])
        × (b.severity ≡ w))
worst_severity-worst_example =
    worst_severity-worst an_alert (record an_alert { severity = critical } ∷ [])

act_all-bound_example :
    length
      (act_all
        (begins ∷ loads (refused (codes "offline")) ∷ applies (an_alert ∷ []) none ∷ [])
        initial_alerts).events
    ≤ 500
act_all-bound_example =
    act_all-bound (begins ∷ loads (refused (codes "offline")) ∷ applies (an_alert ∷ []) none ∷ [])
      (tt, (tt, (tt, tt)))

-- A page that loads, takes an alert in, fails to load again and fails to save a rule.
abbrev offline : List AlertAction
offline =
    loads (
      answered
        record { rules = some (new_alert_rule (codes "r1") ∷ []); active = none; events = none })
    ∷ loads (refused (codes "offline"))
    ∷ applies (an_alert ∷ []) none
    ∷ saves (refused (codes "no rights")) (answered none)
    ∷ []

act_all-fails_example :
    data_of (act_all offline initial_alerts)
    ≡ (new_alert_rule (codes "r1") ∷ [], an_alert ∷ [], [], [])
unfolding act_all act apply load merge_events save
act_all-fails_example = act_all-fails offline initial_alerts

act_all-shown_error_example : (act_all offline initial_alerts).error ≡ some (codes "offline")
unfolding act_all act apply load merge_events save
act_all-shown_error_example =
    act_all-shown_error
      (loads (
          answered record {
            rules = some (new_alert_rule (codes "r1") ∷ []);
            active = none;
            events = none;
          })
        ∷ [])
      (applies (an_alert ∷ []) none ∷ saves (refused (codes "no rights")) (answered none) ∷ [])
      (loads (refused (codes "offline"))) initial_alerts (codes "offline") refl (refl, (refl, tt))
