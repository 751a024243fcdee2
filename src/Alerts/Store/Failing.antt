-- ===== src/Alerts/Store/Failing.antt =====
-- Calls of the server that fail: what is left of the data, and the error on the page.
use nats_explorer.Prelude.{
  Text, List, [], ◌∷◌, ◌++◌, Bool, true, false, ◌||◌, Option, none, some, ◌≡◌, refl, All, inl, inr,
  ap, ◌∙◌, filter, not, ◌==◌, text_eq, Bool-cases,
}
use nats_explorer.Messages.{or_default}
use nats_explorer.Alerts.{AlertRule, Alert, AlertEvent, MaintenanceWindow}
use nats_explorer.Alerts.Store.{
  Answer, answered, refused, Done, muted_rule, AlertsState, begin_load, load, merge_events, apply,
  save, remove, ack, mute, load_maintenance, save_maintenance, AlertAction, begins, loads, applies,
  saves, removes, acks, mutes, loads_maintenance, saves_maintenance, act, act_all,
}

abbrev pub is_refused {ℓ} : {A : Type ℓ} → Answer A → Bool
is_refused (answered a) = false
is_refused (refused e) = true

-- A call of the server that the action waits for fails.
abbrev pub fails : AlertAction → Bool
fails begins = false
fails (loads a) = is_refused a
fails (applies active events) = false
fails (saves a list) = is_refused a || is_refused list
fails (removes id a) = is_refused a
fails (acks a) = is_refused a
fails (mutes server list rule until) =
    is_refused (server (muted_rule rule until)) || is_refused list
fails (loads_maintenance a) = is_refused a
fails (saves_maintenance a) = is_refused a

-- The rules, the alerts, the log and the maintenance windows on the page.
abbrev pub data_of :
    AlertsState → List AlertRule × List Alert × List AlertEvent × List MaintenanceWindow
data_of s = (s.rules, s.active, s.events, s.maintenance)

save-data :
    (a : Answer Done) (list : Answer (Option (List AlertRule))) (s : AlertsState)
    → (is_refused a || is_refused list) ≡ true
    → data_of (save a list s).state ≡ data_of s
unfolding save
save-data (answered u) (answered l) s h = absurd (cc (h))
save-data (answered u) (refused e) s h = refl
save-data (refused e) l s h = refl

act-fails :
    (a : AlertAction) (s : AlertsState) → fails a ≡ true → data_of (act a s).state ≡ data_of s
unfolding act remove ack mute load load_maintenance save_maintenance
act-fails begins s h = absurd (cc (h))
act-fails (loads (answered l)) s h = absurd (cc (h))
act-fails (loads (refused e)) s h = refl
act-fails (applies active events) s h = absurd (cc (h))
act-fails (saves a list) s h = save-data a list s h
act-fails (removes id (answered u)) s h = absurd (cc (h))
act-fails (removes id (refused e)) s h = refl
act-fails (acks (answered l)) s h = absurd (cc (h))
act-fails (acks (refused e)) s h = refl
act-fails (mutes server list rule until) s h = save-data (server (muted_rule rule until)) list s h
act-fails (loads_maintenance (answered l)) s h = absurd (cc (h))
act-fails (loads_maintenance (refused e)) s h = refl
act-fails (saves_maintenance (answered l)) s h = absurd (cc (h))
act-fails (saves_maintenance (refused e)) s h = refl

save-same :
    (a : Answer Done) (list : Answer (Option (List AlertRule))) (s t : AlertsState)
    → data_of s ≡ data_of t
    → data_of (save a list s).state ≡ data_of (save a list t).state
unfolding save
save-same (answered u) (answered l) s t h = ap (λ d. (or_default [] l, d.1, d.2, d.3)) h
save-same (answered u) (refused e) s t h = h
save-same (refused e) l s t h = h

-- What an action makes of the data depends on the data alone.
act-same :
    (a : AlertAction) (s t : AlertsState)
    → data_of s ≡ data_of t
    → data_of (act a s).state ≡ data_of (act a t).state
unfolding act remove ack mute load apply load_maintenance save_maintenance begin_load
act-same begins s t h = h
act-same (loads (answered l)) s t h =
    ap (λ d. (or_default [] l.rules, or_default [] l.active, or_default [] l.events, d.3)) h
act-same (loads (refused e)) s t h = h
act-same (applies active events) s t h = ap (λ d. (d.0, active, merge_events events d.2, d.3)) h
act-same (saves a l) s t h = save-same a l s t h
act-same (removes id (answered u)) s t h =
    ap (λ d. (filter (λ r. not (r.id == id)) d.0, d.1, d.2, d.3)) h
act-same (removes id (refused e)) s t h = h
act-same (acks (answered l)) s t h = ap (λ d. (d.0, or_default [] l, d.2, d.3)) h
act-same (acks (refused e)) s t h = h
act-same (mutes server list rule until) s t h =
    save-same (server (muted_rule rule until)) list s t h
act-same (loads_maintenance (answered l)) s t h = ap (λ d. (d.0, d.1, d.2, or_default [] l)) h
act-same (loads_maintenance (refused e)) s t h = h
act-same (saves_maintenance (answered l)) s t h = ap (λ d. (d.0, d.1, d.2, or_default [] l)) h
act-same (saves_maintenance (refused e)) s t h = h

act_all-without :
    (actions : List AlertAction) (s t : AlertsState)
    → data_of s ≡ data_of t
    → data_of (act_all actions s) ≡ data_of (act_all (filter (λ a. not (fails a)) actions) t)
unfolding act_all
act_all-without [] s t h = h
act_all-without (a ∷ actions) s t h = elim (Bool-cases (fails a)) [
  | inl e ↦ rw e (act_all-without actions (act a s).state t (act-fails a s e ∙ h))
  | inr e ↦ rw e (act_all-without actions (act a s).state (act a t).state (act-same a s t h))
]

-- Calls of the server that fail leave no trace in the data: whatever happens, in whatever order, the rules,
-- the alerts, the log and the maintenance windows are those that the same actions lead to without the
-- ones of which a call failed.
pub act_all-fails :
    (actions : List AlertAction) (s : AlertsState)
    → data_of (act_all actions s) ≡ data_of (act_all (filter (λ a. not (fails a)) actions) s)
act_all-fails actions s = act_all-without actions s s refl

-- The error of a call whose failure is shown on the page; the callers of the others have it.
abbrev pub shown_error : AlertAction → Option Text
shown_error (loads (refused e)) = some e
shown_error (loads_maintenance (refused e)) = some e
shown_error a = none

-- Whether an action leaves the error on the page alone: not an end of a load, and no list of maintenance
-- windows that fails to load.
abbrev pub leaves_error : AlertAction → Bool
leaves_error (loads a) = false
leaves_error (loads_maintenance a) = not (is_refused a)
leaves_error a = true

save-error :
    (a : Answer Done) (list : Answer (Option (List AlertRule))) (s : AlertsState)
    → (save a list s).state.error ≡ s.error
unfolding save
save-error (answered u) (answered l) s = refl
save-error (answered u) (refused e) s = refl
save-error (refused e) l s = refl

act-error :
    (a : AlertAction) (s : AlertsState) → leaves_error a ≡ true → (act a s).state.error ≡ s.error
unfolding act remove ack mute apply load_maintenance save_maintenance begin_load
act-error begins s h = refl
act-error (loads a) s h = absurd (cc (h))
act-error (applies active events) s h = refl
act-error (saves a l) s h = save-error a l s
act-error (removes id (answered u)) s h = refl
act-error (removes id (refused e)) s h = refl
act-error (acks (answered l)) s h = refl
act-error (acks (refused e)) s h = refl
act-error (mutes server list rule until) s h = save-error (server (muted_rule rule until)) list s
act-error (loads_maintenance (answered l)) s h = refl
act-error (loads_maintenance (refused e)) s h = absurd (cc (h))
act-error (saves_maintenance (answered l)) s h = refl
act-error (saves_maintenance (refused e)) s h = refl

act-shown_error :
    (a : AlertAction) (s : AlertsState) (e : Text)
    → shown_error a ≡ some e
    → (act a s).state.error ≡ some e
unfolding act load load_maintenance
act-shown_error begins s e h = absurd (cc (h))
act-shown_error (loads (answered l)) s e h = absurd (cc (h))
act-shown_error (loads (refused f)) s e h = h
act-shown_error (applies active events) s e h = absurd (cc (h))
act-shown_error (saves a l) s e h = absurd (cc (h))
act-shown_error (removes id a) s e h = absurd (cc (h))
act-shown_error (acks a) s e h = absurd (cc (h))
act-shown_error (mutes server list rule until) s e h = absurd (cc (h))
act-shown_error (loads_maintenance (answered l)) s e h = absurd (cc (h))
act-shown_error (loads_maintenance (refused f)) s e h = h
act-shown_error (saves_maintenance a) s e h = absurd (cc (h))

act_all-error :
    (actions : List AlertAction) (s : AlertsState)
    → All (λ a. leaves_error a ≡ true) actions
    → (act_all actions s).error ≡ s.error
unfolding act_all
act_all-error [] s h = refl
act_all-error (a ∷ actions) s h = act_all-error actions (act a s).state h.1 ∙ act-error a s h.0

-- The error that the server gave when the alerts or the maintenance windows could not be loaded is on the
-- page after any further actions, other calls that fail included, until the alerts are loaded again or
-- loading the maintenance windows fails.
pub act_all-shown_error :
    (before after : List AlertAction) (a : AlertAction) (s : AlertsState) (e : Text)
    → shown_error a ≡ some e
    → All (λ b. leaves_error b ≡ true) after
    → (act_all (before ++ a ∷ after) s).error ≡ some e
unfolding act_all
act_all-shown_error [] after a s e h k =
    act_all-error after (act a s).state k ∙ act-shown_error a s e h
act_all-shown_error (b ∷ before) after a s e h k =
    act_all-shown_error before after a (act b s).state e h k
