-- ===== src/Analysis/Steps/Newest.antt =====
-- The table of states against the messages it is made of.
use nats_explorer.Prelude.{
  ℕ, ◌≤◌, ◌<◌, ◌⊎◌, ◌≢◌, ◌++◌, append_assoc, append-nil, All, All-append, arith, ltb, Text,
  text_beq_iff, List, [], ◌∷◌, Bool, true, false, Option, none, some, ◌==◌, text_eq, if◌then◌else◌,
  ◌≡◌, refl, ap, sym, ◌∙◌, inl, inr, Bool-cases,
}
use nats_explorer.Prelude.Strings.{texts_ne}
use nats_explorer.Prelude.Table.{get, set, get-set, get-set_ne}
use nats_explorer.Messages.{NatsMessage}
use nats_explorer.Analysis.Steps.{newer, newest_from, newest_messages}

-- What the table has for a subject: nothing where no message is on it, otherwise a message on it that is
-- newer than those on it that came before, and no older than those that came after.
pub data IsNewest (subject : Text) (messages : List NatsMessage) (entry : Option NatsMessage)
    : Type 0 where
  none_yet :
      entry ≡ none → All (λ m. m.subject ≢ subject) messages → IsNewest subject messages entry
  newest :
      (before after : List NatsMessage) (m : NatsMessage)
      → entry ≡ some m
      → before ++ m ∷ after ≡ messages
      → m.subject ≡ subject
      → All (λ x. (x.subject ≢ subject) ⊎ (x.timestamp < m.timestamp)) before
      → All (λ x. (x.subject ≢ subject) ⊎ (x.timestamp ≤ m.timestamp)) after
      → IsNewest subject messages entry

-- The next entry of a subject when a message comes.
entry-message :
    (subject : Text) (m : NatsMessage) (table : List (Text × NatsMessage))
    → (m.subject == subject) ≡ true
    → get subject (if newer m (get m.subject table) then set m.subject m table else table)
      ≡ (if newer m (get subject table) then some m else get subject table)
entry-message subject m table e =
    let same = (text_beq_iff m.subject subject).0 e in
    ap (λ s. get s (if newer m (get m.subject table) then set m.subject m table else table))
      (sym same)
    ∙ own m.subject (newer m (get m.subject table))
    ∙ ap (λ s. if newer m (get s table) then some m else get s table) same
  where
    own :
        (k : Text) (b : Bool)
        → get k (if b then set k m table else table) ≡ (if b then some m else get k table)
    own k true = get-set k m table
    own k false = refl

entry-other :
    (subject : Text) (m : NatsMessage) (table : List (Text × NatsMessage)) (b : Bool)
    → (m.subject == subject) ≡ false
    → get subject (if b then set m.subject m table else table) ≡ get subject table
entry-other subject m table true e =
    get-set_ne m.subject subject m table (texts_ne m.subject subject e)
entry-other subject m table false e = refl

-- Messages on other subjects are older than any time.
others_before :
    (subject : Text) (t : ℕ) (ms : List NatsMessage)
    → All (λ m. m.subject ≢ subject) ms
    → All (λ x. (x.subject ≢ subject) ⊎ (x.timestamp < t)) ms
others_before subject t [] a = tt
others_before subject t (m ∷ ms) a = (inl a.0, others_before subject t ms a.1)

before_later :
    (subject : Text) (t u : ℕ) (ms : List NatsMessage)
    → t < u
    → All (λ x. (x.subject ≢ subject) ⊎ (x.timestamp < t)) ms
    → All (λ x. (x.subject ≢ subject) ⊎ (x.timestamp < u)) ms
before_later subject t u [] h a = tt
before_later subject t u (m ∷ ms) h a = (either a.0, before_later subject t u ms h a.1)
  where
    either : (m.subject ≢ subject) ⊎ (m.timestamp < t) → (m.subject ≢ subject) ⊎ (m.timestamp < u)
    either (inl o) = inl o
    either (inr k) = inr (omega (arith, h, k))

after_later :
    (subject : Text) (t u : ℕ) (ms : List NatsMessage)
    → t < u
    → All (λ x. (x.subject ≢ subject) ⊎ (x.timestamp ≤ t)) ms
    → All (λ x. (x.subject ≢ subject) ⊎ (x.timestamp < u)) ms
after_later subject t u [] h a = tt
after_later subject t u (m ∷ ms) h a = (either a.0, after_later subject t u ms h a.1)
  where
    either : (m.subject ≢ subject) ⊎ (m.timestamp ≤ t) → (m.subject ≢ subject) ⊎ (m.timestamp < u)
    either (inl o) = inl o
    either (inr k) = inr (omega (arith, h, k))

-- One more message, on another subject.
other-IsNewest :
    (subject : Text) (m : NatsMessage) (seen : List NatsMessage) (entry : Option NatsMessage)
    → m.subject ≢ subject
    → IsNewest subject seen entry
    → IsNewest subject (seen ++ m ∷ []) entry
other-IsNewest subject m seen entry o (none_yet e a) =
    none_yet e (All-append _ seen (m ∷ []) a (o, tt))
other-IsNewest subject m seen entry o (newest before after n e parts s b a) =
    newest before (after ++ m ∷ []) n e
      (sym (append_assoc before (n ∷ after) (m ∷ [])) ∙ ap (λ xs. xs ++ m ∷ []) parts) s b
      (All-append _ after (m ∷ []) a (inl o, tt))

-- One more message, on the subject.
same-IsNewest :
    (subject : Text) (m : NatsMessage) (seen : List NatsMessage) (entry : Option NatsMessage)
    → m.subject ≡ subject
    → IsNewest subject seen entry
    → IsNewest subject (seen ++ m ∷ []) (if newer m entry then some m else entry)
same-IsNewest subject m seen entry h (none_yet e a) =
    rw e (newest seen [] m refl refl h (others_before subject m.timestamp seen a) tt)
same-IsNewest subject m seen entry h (newest before after n e parts s b a) =
    rw e (elim (Bool-cases (ltb n.timestamp m.timestamp)) [
      | inl k ↦
          let later : n.timestamp < m.timestamp = ground (arith, k) in
          let old : All (λ x. (x.subject ≢ subject) ⊎ (x.timestamp < m.timestamp)) (n ∷ after) =
            (inr later, after_later subject n.timestamp m.timestamp after later a) in
          let all =
            All-append _ before (n ∷ after)
              (before_later subject n.timestamp m.timestamp before later b) old in
          rw k (newest seen [] m refl refl h (rw parts at all) tt)
      | inr k ↦
          let no_later : m.timestamp ≤ n.timestamp = ground (arith, k) in
          rw k (
            newest before (after ++ m ∷ []) n refl
              (sym (append_assoc before (n ∷ after) (m ∷ [])) ∙ ap (λ xs. xs ++ m ∷ []) parts) s b
              (All-append _ after (m ∷ []) a (inr no_later, tt)))
    ])

newest_from-IsNewest :
    (subject : Text) (ms seen : List NatsMessage) (table : List (Text × NatsMessage))
    → IsNewest subject seen (get subject table)
    → IsNewest subject (seen ++ ms) (get subject (newest_from ms table))
unfolding newest_from
newest_from-IsNewest subject [] seen table h = rw (append-nil seen) h
newest_from-IsNewest subject (m ∷ ms) seen table h =
    let next = if newer m (get m.subject table) then set m.subject m table else table in
    let step : IsNewest subject (seen ++ m ∷ []) (get subject next) =
      elim (Bool-cases (m.subject == subject)) [
        | inl e ↦ rw (entry-message subject m table e) (
            same-IsNewest subject m seen (get subject table) ((text_beq_iff m.subject subject).0 e)
              h)
        | inr e ↦
            rw (entry-other subject m table (newer m (get m.subject table)) e)
              (other-IsNewest subject m seen (get subject table) (texts_ne m.subject subject e) h)
      ] in
    rw (append_assoc seen (m ∷ []) ms) at
      (newest_from-IsNewest subject ms (seen ++ m ∷ []) next step)

-- The table of states has for every subject the newest of its messages, the first that came where several
-- are equally new, whatever the other subjects publish in between; a subject without messages has no row.
pub newest_messages-get :
    (subject : Text) (messages : List NatsMessage)
    → IsNewest subject messages (get subject (newest_messages messages))
unfolding newest_messages
newest_messages-get subject messages =
    newest_from-IsNewest subject messages [] [] (none_yet (unfold get in refl) tt)
