-- ===== src/Alerts/Store/Log.antt =====
-- The log of alerts.
use nats_explorer.Prelude.{
  ◌≤◌, List, [], ◌∷◌, ◌++◌, Option, none, some, length, length-take, arith, All, text_eq,
}
use nats_explorer.Messages.{or_default}
use nats_explorer.Alerts.{AlertRule, AlertEvent}
use nats_explorer.Alerts.Store.{
  Answer, answered, refused, Done, muted_rule, AlertsState, initial_alerts, begin_load, load,
  merge_events, apply, save, remove, ack, mute, load_maintenance, save_maintenance, AlertAction,
  begins, loads, applies, saves, removes, acks, mutes, loads_maintenance, saves_maintenance, act,
  act_all,
}

-- The server's log is no longer than the page's.
abbrev pub IsBoundedLog : AlertAction → Type 0
IsBoundedLog (loads (answered l)) = length (or_default [] l.events) ≤ 500
IsBoundedLog a = Unit

merge_events-bound :
    (events : Option (List AlertEvent)) (log : List AlertEvent)
    → length log ≤ 500
    → length (merge_events events log) ≤ 500
unfolding merge_events
merge_events-bound none log h = h
merge_events-bound (some []) log h = h
merge_events-bound (some (e ∷ events)) log h = omega (arith, length-take 500 ((e ∷ events) ++ log))

save-bound :
    (a : Answer Done) (list : Answer (Option (List AlertRule))) (s : AlertsState)
    → length s.events ≤ 500
    → length (save a list s).state.events ≤ 500
unfolding save
save-bound (answered u) (answered l) s h = h
save-bound (answered u) (refused e) s h = h
save-bound (refused e) l s h = h

act-bound :
    (a : AlertAction) (s : AlertsState)
    → IsBoundedLog a
    → length s.events ≤ 500
    → length (act a s).state.events ≤ 500
unfolding act remove ack mute load apply load_maintenance save_maintenance begin_load
act-bound begins s b h = h
act-bound (loads (answered l)) s b h = b
act-bound (loads (refused e)) s b h = h
act-bound (applies active events) s b h = merge_events-bound events s.events h
act-bound (saves a l) s b h = save-bound a l s h
act-bound (removes id (answered u)) s b h = h
act-bound (removes id (refused e)) s b h = h
act-bound (acks (answered l)) s b h = h
act-bound (acks (refused e)) s b h = h
act-bound (mutes server list rule until) s b h =
    save-bound (server (muted_rule rule until)) list s h
act-bound (loads_maintenance (answered l)) s b h = h
act-bound (loads_maintenance (refused e)) s b h = h
act-bound (saves_maintenance (answered l)) s b h = h
act-bound (saves_maintenance (refused e)) s b h = h

act_all-from :
    (actions : List AlertAction) (s : AlertsState)
    → All IsBoundedLog actions
    → length s.events ≤ 500
    → length (act_all actions s).events ≤ 500
unfolding act_all
act_all-from [] s b h = h
act_all-from (a ∷ actions) s b h = act_all-from actions (act a s).state b.1 (act-bound a s b.0 h)

-- Whatever happens from the start, and however the calls of the server end, the log of alerts holds at most
-- 500 entries, where the logs that the server answers a load with hold no more.
pub act_all-bound :
    (actions : List AlertAction)
    → All IsBoundedLog actions
    → length (act_all actions initial_alerts).events ≤ 500
act_all-bound actions b = act_all-from actions initial_alerts b (omega arith)
