-- ===== src/Saved/Connections/Topics.antt =====
-- The subscriptions that connecting asks for.
use nats_explorer.Prelude.{
  Text, text_beq, List, [], ◌∷◌, ◌++◌, map, Bool, false, not, ◌&&◌, ◌||◌, Option, text_eq, filter,
  ◌≡◌, refl, ap, sym, ◌∙◌, append_assoc, append-nil, inl, inr, Bool-cases, All,
}
use nats_explorer.Messages.{or_default}
use nats_explorer.Saved.Connections.{
  SystemTopicKey, SavedConnection, topic_subject, system_topics, includes, add_topics,
  to_connection_config,
}

-- The topics that are switched on and not listened to yet.
abbrev pub missing : (SystemTopicKey → Option Bool) → List Text → List SystemTopicKey → List Text
missing wanted subs ts =
    map topic_subject
      (filter (λ t. or_default false (wanted t) && not (includes (topic_subject t) subs)) ts)

includes-snoc :
    (subject added : Text) (subs : List Text)
    → text_beq added subject ≡ false
    → includes subject (subs ++ added ∷ []) ≡ includes subject subs
unfolding includes
includes-snoc subject added [] h = rw h refl
includes-snoc subject added (s ∷ subs) h =
    ap (λ b. text_beq s subject || b) (includes-snoc subject added subs h)

-- The topics have different subjects.
abbrev IsApart : Text → SystemTopicKey → Type 0
IsApart added t = text_beq added (topic_subject t) ≡ false

missing-snoc :
    (wanted : SystemTopicKey → Option Bool) (added : Text) (subs : List Text)
    (ts : List SystemTopicKey)
    → All (IsApart added) ts
    → missing wanted (subs ++ added ∷ []) ts ≡ missing wanted subs ts
missing-snoc wanted added subs [] a = refl
missing-snoc wanted added subs (t ∷ ts) a =
    let rest = missing-snoc wanted added subs ts a.1 in
    let same = includes-snoc (topic_subject t) added subs a.0 in
    elim (Bool-cases (or_default false (wanted t) && not (includes (topic_subject t) subs))) [
      | inl e ↦ rw (same, e) (ap (λ xs. topic_subject t ∷ xs) rest)
      | inr e ↦ rw (same, e) rest
    ]

abbrev AllApart : List SystemTopicKey → Type 0
AllApart [] = Unit
AllApart (t ∷ ts) = All (IsApart (topic_subject t)) ts × AllApart ts

add_topics_lem :
    (wanted : SystemTopicKey → Option Bool) (ts : List SystemTopicKey) (subs : List Text)
    → AllApart ts
    → add_topics wanted ts subs ≡ subs ++ missing wanted subs ts
unfolding add_topics
add_topics_lem wanted [] subs a = sym (append-nil subs)
add_topics_lem wanted (t ∷ ts) subs a =
    elim (Bool-cases (or_default false (wanted t) && not (includes (topic_subject t) subs))) [
      | inl e ↦ rw e (
          add_topics_lem wanted ts (subs ++ topic_subject t ∷ []) a.1
          ∙ append_assoc subs (topic_subject t ∷ [])
              (missing wanted (subs ++ topic_subject t ∷ []) ts)
          ∙ ap (λ xs. subs ++ topic_subject t ∷ xs)
              (missing-snoc wanted (topic_subject t) subs ts a.0))
      | inr e ↦ rw e (add_topics_lem wanted ts subs a.1)
    ]

topics_apart : AllApart system_topics
unfolding text_beq
topics_apart = ((refl, (refl, (refl, tt))), ((refl, (refl, tt)), ((refl, tt), (tt, tt))))

-- Connecting asks for the saved subscriptions, all and in their order, and after them for the system topics
-- that are switched on and not among the saved subscriptions, each once.
pub to_connection_config-topics :
    (saved : SavedConnection)
    → (to_connection_config saved).subscriptions
      ≡ saved.subscriptions ++ missing saved.sys_topics saved.subscriptions system_topics
unfolding to_connection_config
to_connection_config-topics saved =
    add_topics_lem saved.sys_topics system_topics saved.subscriptions topics_apart
