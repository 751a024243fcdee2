-- ===== src/Store/Switching.antt =====
-- What a list of connections from the server does to the page: the active connection and what is dropped.
use nats_explorer.Prelude.{
  ℕ, Text, text_beq_iff, List, [], ◌∷◌, map, Bool, true, false, not, Option, none, some, ◌≡◌, refl,
  arith, text_eq, any, filter, find, All, inl, inr, Bool-cases, if◌then◌else◌,
}
use nats_explorer.Store.{AppState, ConnectionStatus}
use nats_explorer.Store.Selection.{same_text}
use nats_explorer.Store.Connections.{
  set_connections, choose_active, is_listed, is_listed_active, id_of, first_id, or_id, paused,
  prune_stats,
}

abbrev pub IsActive : List ConnectionStatus → Option Text → Type 0
IsActive conns none = conns ≡ []
IsActive conns (some id) = is_listed conns id ≡ true

-- A pause does not change which connections there are.
paused-id : (now : ℕ) (c : ConnectionStatus) (pause : Option ℕ) → (paused now c pause).id ≡ c.id
paused-id now c none = refl
paused-id now c (some pause) = ground arith

is_listed-head :
    (c : ConnectionStatus) (conns : List ConnectionStatus) → is_listed (c ∷ conns) c.id ≡ true
unfolding is_listed
is_listed-head c conns = rw ((text_beq_iff c.id c.id).1 refl)

is_listed-tail :
    (c : ConnectionStatus) (conns : List ConnectionStatus) (id : Text)
    → is_listed conns id ≡ true
    → is_listed (c ∷ conns) id ≡ true
unfolding is_listed
is_listed-tail c conns id h = ground (arith, h)

IsActive-tail :
    (c : ConnectionStatus) (conns : List ConnectionStatus) (found : Option ConnectionStatus)
    (first : Option Text)
    → IsActive (c ∷ conns) first
    → IsActive conns (or_id (id_of found) (first_id conns))
    → IsActive (c ∷ conns) (or_id (id_of found) first)
IsActive-tail c conns none first h k = h
IsActive-tail c conns (some d) first h k = is_listed-tail c conns d.id k

head_or_tail-IsActive :
    (test : Bool) (c : ConnectionStatus) (conns : List ConnectionStatus)
    → IsActive conns (or_id (id_of (find (λ d. d.connected) conns)) (first_id conns))
    → IsActive
        (c ∷ conns)
        (or_id (id_of (if test then some c else find (λ d. d.connected) conns)) (some c.id))
head_or_tail-IsActive true c conns h = is_listed-head c conns
head_or_tail-IsActive false c conns h =
    IsActive-tail c conns (find (λ d. d.connected) conns) (some c.id) (is_listed-head c conns) h

first_connected-IsActive :
    (conns : List ConnectionStatus)
    → IsActive conns (or_id (id_of (find (λ c. c.connected) conns)) (first_id conns))
first_connected-IsActive [] = refl
first_connected-IsActive (c ∷ conns) =
    head_or_tail-IsActive c.connected c conns (first_connected-IsActive conns)

is_listed_active-IsActive :
    (conns : List ConnectionStatus) (active : Option Text)
    → is_listed_active conns active ≡ true
    → IsActive conns active
is_listed_active-IsActive conns none h = ground (arith, h)
is_listed_active-IsActive conns (some id) h = h

choose_active-IsActive :
    (conns : List ConnectionStatus) (active : Option Text)
    → IsActive conns (choose_active conns active)
unfolding choose_active
choose_active-IsActive conns active = elim (Bool-cases (is_listed_active conns active)) [
  | inl e ↦ rw e (is_listed_active-IsActive conns active e)
  | inr e ↦ rw e (first_connected-IsActive conns)
]

-- The new state keeps the active connection when it is still listed.
choose_active-kept :
    (conns : List ConnectionStatus) (id : Text)
    → is_listed conns id ≡ true
    → choose_active conns (some id) ≡ some id
unfolding choose_active
choose_active-kept conns id h = rw h

abbrev chosen : ℕ → List ConnectionStatus → AppState → Option Text
chosen now received s =
    choose_active (map (λ c. paused now c c.live_pause_ms) received) s.active_conn_id

abbrev after : ℕ → List ConnectionStatus → AppState → AppState
after now received s = set_connections now received s

set_connections-fields :
    (now : ℕ) (received : List ConnectionStatus) (s : AppState)
    → ((after now received s).connections ≡ map (λ c. paused now c c.live_pause_ms) received)
      × ((after now received s).active_conn_id ≡ chosen now received s)
unfolding set_connections
set_connections-fields now received s =
    elim (Bool-cases (same_text (chosen now received s) s.active_conn_id)) [
      | inl e ↦ rw e (refl, refl)
      | inr e ↦ rw e (refl, refl)
    ]

-- After the list of connections arrives, the active connection is one of the list, and there is none only when the list is empty.
set_connections-IsActive :
    (now : ℕ) (received : List ConnectionStatus) (s : AppState)
    → IsActive
        (set_connections now received s).connections
        (set_connections now received s).active_conn_id
set_connections-IsActive now received s =
    let fields = set_connections-fields now received s in
    rw (fields.0, fields.1) (choose_active-IsActive _ s.active_conn_id)

filter-All : {A : Type 0} (p : A → Bool) (xs : List A) → All (λ x. p x ≡ true) (filter p xs)
filter-All p [] = tt
filter-All p (x ∷ xs) = elim (Bool-cases (p x)) [
  | inl e ↦ rw e (e, filter-All p xs)
  | inr e ↦ rw e (filter-All p xs)
]

pub filter-none :
    {A : Type 0} (p : A → Bool) (xs : List A)
    → any (λ x. not (p x)) xs ≡ false
    → All (λ x. p x ≡ true) xs
filter-none p [] h = tt
filter-none p (x ∷ xs) h = (ground (arith, h), filter-none p xs (ground (arith, h)))

prune_stats-listed :
    (conns : List ConnectionStatus) (s : AppState)
    → All (λ e. is_listed conns e.0 ≡ true) (prune_stats conns s).subscription_stats
unfolding prune_stats
prune_stats-listed conns s =
    elim (Bool-cases (any (λ e. not (is_listed conns e.0)) s.subscription_stats)) [
      | inl e ↦ rw e (filter-All (λ e. is_listed conns e.0) s.subscription_stats)
      | inr e ↦ rw e (filter-none (λ e. is_listed conns e.0) s.subscription_stats e)
    ]

pub set_connections-live :
    (now : ℕ) (received : List ConnectionStatus) (s : AppState)
    → ((after now received s).live ≡ (prune_stats (after now received s).connections s).live)
      × ((after now received s).subscription_stats
          ≡ (prune_stats (after now received s).connections s).subscription_stats)
unfolding set_connections
set_connections-live now received s =
    elim (Bool-cases (same_text (chosen now received s) s.active_conn_id)) [
      | inl e ↦ rw e (refl, refl)
      | inr e ↦ rw e (refl, refl)
    ]

-- The counters that are left are those of listed connections.
set_connections-counters :
    (now : ℕ) (received : List ConnectionStatus) (s : AppState)
    → All
        (λ e. is_listed (set_connections now received s).connections e.0 ≡ true)
        (set_connections now received s).subscription_stats
set_connections-counters now received s =
    let fields = set_connections-live now received s in rw fields.1 (prune_stats-listed _ s)
