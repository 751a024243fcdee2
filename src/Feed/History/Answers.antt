-- ===== src/Feed/History/Answers.antt =====
-- The answers to requests for history, late ones included.
use nats_explorer.Prelude.{
  ℕ, ◌+◌, ◌≤◌, ◌<◌, ◌≢◌, Text, text_beq_iff, List, [], ◌∷◌, Bool, true, false, Option, none, some,
  ◌≡◌, refl, ap, ◌∙◌, arith, inl, inr, Bool-cases, ◌==◌, text_eq, any,
}
use nats_explorer.Prelude.Table.{get, get-set, get-set_ne}
use nats_explorer.Messages.{or_default}
use nats_explorer.Store.View.{HistoryResponse}
use nats_explorer.Store.Live.{apply_history}
use nats_explorer.Feed.History.{
  Loader, next_seq, ask, is_seq, answer, fail, LoadEvent, asks, answers, fails, load, load_all,
}

-- The number of the last request for a subject; 0 before the first.
abbrev pub seq_of : Text → Loader → ℕ
seq_of subject l = or_default 0 (get subject l.load_seq)

abbrev pub is_ask : Text → LoadEvent → Bool
is_ask subject (asks other) = other == subject
is_ask subject (answers other seq res replace) = false
is_ask subject (fails other seq error) = false

seq_of-ask : (subject : Text) (l : Loader) → seq_of subject (ask subject l) ≡ seq_of subject l + 1
unfolding ask next_seq
seq_of-ask subject l =
    rw (get-set subject (or_default 0 (get subject l.load_seq) + 1) l.load_seq) refl

seq_of-ask_ne :
    (other subject : Text) (l : Loader)
    → other ≢ subject
    → get subject (ask other l).load_seq ≡ get subject l.load_seq
unfolding ask
seq_of-ask_ne other subject l h = get-set_ne other subject _ l.load_seq h

answer-load_seq :
    (subject : Text) (seq : ℕ) (res : HistoryResponse) (replace : Bool) (l : Loader)
    → (answer subject seq res replace l).load_seq ≡ l.load_seq
unfolding answer
answer-load_seq subject seq res replace l =
    elim (Bool-cases (is_seq seq (get subject l.load_seq))) [
      | inl e ↦ rw e refl
      | inr e ↦ rw e refl
    ]

fail-load_seq :
    (subject : Text) (seq : ℕ) (error : Text) (l : Loader)
    → (fail subject seq error l).load_seq ≡ l.load_seq
unfolding fail
fail-load_seq subject seq error l = elim (Bool-cases (is_seq seq (get subject l.load_seq))) [
  | inl e ↦ rw e refl
  | inr e ↦ rw e refl
]

load-get :
    (e : LoadEvent) (subject : Text) (l : Loader)
    → is_ask subject e ≡ false
    → get subject (load e l).load_seq ≡ get subject l.load_seq
unfolding load
load-get (asks other) subject l h =
    seq_of-ask_ne other subject l (λ e. absurd (cc ((text_beq_iff other subject).1 e, h)))
load-get (answers other seq res replace) subject l h =
    ap (get subject) (answer-load_seq other seq res replace l)
load-get (fails other seq error) subject l h = ap (get subject) (fail-load_seq other seq error l)

load_all-get :
    (es : List LoadEvent) (subject : Text) (l : Loader)
    → any (is_ask subject) es ≡ false
    → get subject (load_all es l).load_seq ≡ get subject l.load_seq
unfolding load_all
load_all-get [] subject l h = refl
load_all-get (e ∷ es) subject l h =
    load_all-get es subject (load e l) (ground (arith, h))
    ∙ load-get e subject l (ground (arith, h))

ask-seq_of :
    (e : LoadEvent) (subject : Text) (l : Loader)
    → is_ask subject e ≡ true
    → seq_of subject (load e l) ≡ seq_of subject l + 1
unfolding load
ask-seq_of (asks other) subject l h = rw ((text_beq_iff other subject).0 h) (seq_of-ask subject l)
ask-seq_of (answers other seq res replace) subject l h = absurd (cc (h))
ask-seq_of (fails other seq error) subject l h = absurd (cc (h))

-- The numbers never go back.
load-seq_of :
    (e : LoadEvent) (subject : Text) (l : Loader) → seq_of subject l ≤ seq_of subject (load e l)
load-seq_of e subject l = elim (Bool-cases (is_ask subject e)) [
  | inl h ↦ omega (arith, ask-seq_of e subject l h)
  | inr h ↦ rw (load-get e subject l h) (omega arith)
]

load_all-seq_of :
    (es : List LoadEvent) (subject : Text) (l : Loader)
    → seq_of subject l ≤ seq_of subject (load_all es l)
unfolding load_all
load_all-seq_of [] subject l = omega arith
load_all-seq_of (e ∷ es) subject l =
    omega (arith, load-seq_of e subject l, load_all-seq_of es subject (load e l))

is_seq-or_default :
    (seq : ℕ) (found : Option ℕ) → seq < or_default 0 found → is_seq seq found ≡ false
is_seq-or_default seq none h = refl
is_seq-or_default seq (some n) h = ground (arith, h)

answer-ignored :
    (subject : Text) (seq : ℕ) (res : HistoryResponse) (replace : Bool) (l : Loader)
    → seq < seq_of subject l
    → answer subject seq res replace l ≡ l
unfolding answer
answer-ignored subject seq res replace l h =
    rw (is_seq-or_default seq (get subject l.load_seq) h) refl

-- The answer to a request changes nothing once the same subject has been asked for again, whatever
-- else happens before and after that.
pub answer-stale :
    (subject : Text) (before after : List LoadEvent) (res : HistoryResponse) (replace : Bool)
    (l : Loader)
    → answer subject
        (seq_of subject (ask subject l))
        res
        replace
        (load_all after (ask subject (load_all before (ask subject l))))
      ≡ load_all after (ask subject (load_all before (ask subject l)))
answer-stale subject before after res replace l =
    let asked = ask subject l in
    let again = load_all before asked in
    answer-ignored subject (seq_of subject asked) res replace (load_all after (ask subject again)) (
      omega (
        arith,
        load_all-seq_of before subject asked,
        seq_of-ask subject again,
        load_all-seq_of after subject (ask subject again),
      ))

asked-found : (subject : Text) (l : Loader) → get subject (ask subject l).load_seq ≢ none
unfolding ask
asked-found subject l e = absurd (cc (get-set subject (next_seq subject l.load_seq) l.load_seq, e))

is_seq_refl : (found : Option ℕ) → found ≢ none → is_seq (or_default 0 found) found ≡ true
is_seq_refl none h = absurd (h refl)
is_seq_refl (some n) h = ground arith

-- The answer to the last request for a subject is applied to the page as it is then.
answer-current :
    (subject : Text) (after : List LoadEvent) (res : HistoryResponse) (replace : Bool) (l : Loader)
    → any (is_ask subject) after ≡ false
    → (answer subject
        (seq_of subject (ask subject l))
        res
        replace
        (load_all after (ask subject l))).page
      ≡ apply_history subject res replace (load_all after (ask subject l)).page
unfolding answer
answer-current subject after res replace l h =
    let found = load_all-get after subject (ask subject l) h in
    rw (found, is_seq_refl (get subject (ask subject l).load_seq) (asked-found subject l)) refl
