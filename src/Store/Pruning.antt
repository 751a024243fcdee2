-- ===== src/Store/Pruning.antt =====
-- What a list of connections from the server leaves of the messages on the page.
use mathlib.Core.Bool.{Bool-set}
use mathlib.Core.Logic.Or
use mathlib.Core.List.{Mem, mem-cons, mem-cons_self, mem-cons_of_mem, not-mem-nil}
use nats_explorer.Prelude.{
  ℕ, Text, text_eq, text_beq_iff, ◌==◌, List, [], ◌∷◌, map, true, false, not, Option, none, some,
  ◌≡◌, ◌≢◌, refl, ap, any, filter, All, inl, inr, Bool-cases,
}
use nats_explorer.Prelude.Strings.{texts_ne}
use nats_explorer.Messages.{NatsMessage}
use nats_explorer.Store.{AppState, ConnectionStatus, SubscriptionStats}
use nats_explorer.Store.View.{LiveView}
use nats_explorer.Store.Switching.{set_connections-live, filter-none}
use nats_explorer.Store.Connections.{
  set_connections, is_listed, keeps_id, keep_message, prune_view, prune_stats,
}

-- A message without a connection, or of a connection of the list.
pub data IsHome (conns : List ConnectionStatus) (conn : Option Text) : Type 0 where
  nowhere : conn ≡ none → IsHome conns conn
  unnamed : conn ≡ some [] → IsHome conns conn
  listed : (c : ConnectionStatus) → Mem c conns → conn ≡ some c.id → IsHome conns conn

-- A message of a connection that is not on the list.
pub data IsGone (conns : List ConnectionStatus) (conn : Option Text) : Type 0 where
  gone :
      (x : ℕ) (id : Text)
      → conn ≡ some (x ∷ id)
      → All (λ c. c.id ≢ x ∷ id) conns
      → IsGone conns conn

-- A message without a connection, or of a connection that has a counter.
pub data IsCounted (stats : List (Text × SubscriptionStats)) (conn : Option Text) : Type 0 where
  no_connection : conn ≡ none → IsCounted stats conn
  no_name : conn ≡ some [] → IsCounted stats conn
  counted : (e : Text × SubscriptionStats) → Mem e stats → conn ≡ some e.0 → IsCounted stats conn

-- The second list has the messages of the first, in their order, without those of connections that are
-- not listed.
pub data IsSifted (conns : List ConnectionStatus)
    : List NatsMessage → List NatsMessage → Type 0 where
  finished : IsSifted conns [] []
  stays :
      {ms ns : List NatsMessage} (m : NatsMessage)
      → IsHome conns m.conn_id
      → IsSifted conns ms ns
      → IsSifted conns (m ∷ ms) (m ∷ ns)
  goes :
      {ms ns : List NatsMessage} (m : NatsMessage)
      → IsGone conns m.conn_id
      → IsSifted conns ms ns
      → IsSifted conns (m ∷ ms) ns

-- The same for the views: nothing but their messages changes.
pub data IsSiftedLive (conns : List ConnectionStatus)
    : List (Text × LiveView) → List (Text × LiveView) → Type 0 where
  no_view : IsSiftedLive conns [] []
  view :
      {live next : List (Text × LiveView)} (subject : Text) (v : LiveView)
      (messages branch : List NatsMessage)
      → IsSifted conns v.messages messages
      → IsSifted conns v.branch branch
      → IsSiftedLive conns live next
      → IsSiftedLive conns
          ((subject, v) ∷ live)
          ((subject, record v { messages = messages; branch = branch }) ∷ next)

abbrev pub AllCounted : List (Text × SubscriptionStats) → List NatsMessage → Type 0
AllCounted stats ms = All (λ m. IsCounted stats m.conn_id) ms

is_listed-found :
    (conns : List ConnectionStatus) (id : Text)
    → is_listed conns id ≡ true
    → (c : ConnectionStatus) × Mem c conns × (id ≡ c.id)
unfolding is_listed
is_listed-found [] id h = absurd (cc (h))
is_listed-found (c ∷ conns) id h = elim (Bool-cases (c.id == id)) [
  | inl e ↦ let same = (text_beq_iff c.id id).0 e in (c, mem-cons_self, cc (same))
  | inr e ↦ let t = is_listed-found conns id (rw e at h) in (t.0, mem-cons_of_mem c t.1, t.2)
]

is_listed-missing :
    (conns : List ConnectionStatus) (id : Text)
    → is_listed conns id ≡ false
    → All (λ c. c.id ≢ id) conns
unfolding is_listed
is_listed-missing [] id h = tt
is_listed-missing (c ∷ conns) id h = elim (Bool-cases (c.id == id)) [
  | inl e ↦ absurd (cc (rw e at h))
  | inr e ↦ (texts_ne c.id id e, is_listed-missing conns id (rw e at h))
]

listed-IsHome :
    (conns : List ConnectionStatus) (id : Text) → is_listed conns id ≡ true → IsHome conns (some id)
listed-IsHome conns id h = let t = is_listed-found conns id h in listed t.0 t.1 (ap some t.2)

keeps_id-IsHome :
    (conns : List ConnectionStatus) (conn : Option Text)
    → keeps_id conns conn ≡ true
    → IsHome conns conn
keeps_id-IsHome conns none h = nowhere refl
keeps_id-IsHome conns (some []) h = unnamed refl
keeps_id-IsHome conns (some (x ∷ id)) h = listed-IsHome conns (x ∷ id) h

keeps_id-IsGone :
    (conns : List ConnectionStatus) (conn : Option Text)
    → keeps_id conns conn ≡ false
    → IsGone conns conn
keeps_id-IsGone conns none h = absurd (cc (h))
keeps_id-IsGone conns (some []) h = absurd (cc (h))
keeps_id-IsGone conns (some (x ∷ id)) h = gone x id refl (is_listed-missing conns (x ∷ id) h)

filter-IsSifted :
    (conns : List ConnectionStatus) (ms : List NatsMessage)
    → IsSifted conns ms (filter (keep_message conns) ms)
unfolding keep_message
filter-IsSifted conns [] = finished
filter-IsSifted conns (m ∷ ms) = elim (Bool-cases (keeps_id conns m.conn_id)) [
  | inl e ↦ rw e (stays m (keeps_id-IsHome conns m.conn_id e) (filter-IsSifted conns ms))
  | inr e ↦ rw e (goes m (keeps_id-IsGone conns m.conn_id e) (filter-IsSifted conns ms))
]

pruned-IsSiftedLive :
    (conns : List ConnectionStatus) (live : List (Text × LiveView))
    → IsSiftedLive conns live (map (λ e. (e.0, prune_view conns e.1)) live)
unfolding prune_view
pruned-IsSiftedLive conns [] = no_view
pruned-IsSiftedLive conns ((subject, v) ∷ live) =
    view subject v _ _ (filter-IsSifted conns v.messages) (filter-IsSifted conns v.branch)
      (pruned-IsSiftedLive conns live)

counted-listed :
    (conns : List ConnectionStatus) (stats : List (Text × SubscriptionStats))
    → All (λ e. is_listed conns e.0 ≡ true) stats
    → (e : Text × SubscriptionStats) → Mem e stats
    → is_listed conns e.0 ≡ true
counted-listed conns [] a e h = absurd (not-mem-nil h)
counted-listed conns (d ∷ stats) a e h =
    Or.elim {C = is_listed conns e.0 ≡ true} (Bool-set _ _) (mem-cons.0 h) (λ k. rw k a.0)
      (λ t. counted-listed conns stats a.1 e t)

module _ (conns : List ConnectionStatus) (stats : List (Text × SubscriptionStats))
    (all_listed : All (λ e. is_listed conns e.0 ≡ true) stats) where
  counted-IsHome : (conn : Option Text) → IsCounted stats conn → IsHome conns conn
  counted-IsHome conn (no_connection e) = nowhere e
  counted-IsHome conn (no_name e) = unnamed e
  counted-IsHome conn (counted e m h) =
      rw h (listed-IsHome conns e.0 (counted-listed conns stats all_listed e m))

  whole-IsSifted : (ms : List NatsMessage) → AllCounted stats ms → IsSifted conns ms ms
  whole-IsSifted [] a = finished
  whole-IsSifted (m ∷ ms) a = stays m (counted-IsHome m.conn_id a.0) (whole-IsSifted ms a.1)

  whole-IsSiftedLive :
      (live : List (Text × LiveView))
      → All
          (λ (e : Text × LiveView). AllCounted stats e.1.messages × AllCounted stats e.1.branch)
          live
      → IsSiftedLive conns live live
  whole-IsSiftedLive [] a = no_view
  whole-IsSiftedLive ((subject, v) ∷ live) a =
      view subject v v.messages v.branch (whole-IsSifted v.messages a.0.0)
        (whole-IsSifted v.branch a.0.1) (whole-IsSiftedLive live a.1)

prune_stats-IsSiftedLive :
    (conns : List ConnectionStatus) (s : AppState)
    → All
        (λ (e : Text × LiveView).
          AllCounted s.subscription_stats e.1.messages × AllCounted s.subscription_stats e.1.branch)
        s.live
    → IsSiftedLive conns s.live (prune_stats conns s).live
unfolding prune_stats
prune_stats-IsSiftedLive conns s a =
    elim (Bool-cases (any (λ e. not (is_listed conns e.0)) s.subscription_stats)) [
      | inl e ↦ rw e (pruned-IsSiftedLive conns s.live)
      | inr e ↦ rw e (
          whole-IsSiftedLive conns s.subscription_stats
            (filter-none (λ e. is_listed conns e.0) s.subscription_stats e) s.live a)
    ]

-- When the list of connections arrives, the views keep exactly the messages of listed connections and
-- those without a connection, in their order, and nothing else of a view changes. Condition: the connection
-- of every message in a view has a counter.
pub set_connections-IsSiftedLive :
    (now : ℕ) (received : List ConnectionStatus) (s : AppState)
    → All
        (λ (e : Text × LiveView).
          AllCounted s.subscription_stats e.1.messages × AllCounted s.subscription_stats e.1.branch)
        s.live
    → IsSiftedLive
        (set_connections now received s).connections
        s.live
        (set_connections now received s).live
set_connections-IsSiftedLive now received s a =
    rw (set_connections-live now received s).0
      (prune_stats-IsSiftedLive (set_connections now received s).connections s a)
