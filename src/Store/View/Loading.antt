-- ===== src/Store/View/Loading.antt =====
-- A page of older messages against what the view holds afterwards.
use mathlib.Core.Logic.Or
use mathlib.Core.List.{
  Mem, Mem-prop, mem-cons, mem-append_left, mem-append_right, mem-cons_self, mem-cons_of_mem, Perm,
}
use mathlib.Core.List.Perm
use nats_explorer.Prelude.Distinct.{unseen_by}
use nats_explorer.Prelude.{
  ◌+◌, ◌≤◌, Text, text_eq, text_beq_iff, ◌==◌, List, [], ◌∷◌, ◌++◌, Bool, true, any, ◌≡◌, sym, refl,
  arith, length, filter, All, inl, inr, Bool-cases,
}
use nats_explorer.Messages.{NatsMessage, message_key, or_default}
use nats_explorer.Messages.Keys.{HasNoColon, IsSame, message_key-IsSame}
use nats_explorer.Store.View.{LiveView, max_loaded_messages, unseen, with_older}
use nats_explorer.Store.View.Retention.{with_older-perm}

-- Messages whose connections have ids without colons.
abbrev pub HaveNoColon : List NatsMessage → Type 0
HaveNoColon ms = All (λ m. HasNoColon (or_default [] m.conn_id)) ms

-- Among `after` are all messages of `before`, and of the page each message or the same one.
pub record IsLoaded (page before after : List NatsMessage) : Type 0 where
  pub kept : All (λ m. Mem m after) before
  pub loaded : All (λ m. (n : NatsMessage) × Mem n after × IsSame n m) page

length-filter : (p : NatsMessage → Bool) (xs : List NatsMessage) → length (filter p xs) ≤ length xs
length-filter p [] = omega arith
length-filter p (x ∷ xs) = elim (Bool-cases (p x)) [
  | inl e ↦ rw e (omega (arith, length-filter p xs))
  | inr e ↦ rw e (omega (arith, length-filter p xs))
]

mem_filter :
    (p : NatsMessage → Bool) (m : NatsMessage) (xs : List NatsMessage)
    → p m ≡ true
    → Mem m xs
    → Mem m (filter p xs)
mem_filter p m [] h k = k
mem_filter p m (x ∷ xs) h k =
    Or.elim Mem-prop (mem-cons.0 k) (λ e. rw (sym e) (rw h mem-cons_self))
      (λ t. elim (Bool-cases (p x)) [
        | inl e ↦ rw e (mem-cons_of_mem x (mem_filter p m xs h t))
        | inr e ↦ rw e (mem_filter p m xs h t)
      ])

all_mem :
    {P : NatsMessage → Type 0} (xs : List NatsMessage)
    → ((m : NatsMessage) → Mem m xs → P m)
    → All P xs
all_mem [] f = tt
all_mem (x ∷ xs) f = (f x mem-cons_self, all_mem xs (λ m k. f m (mem-cons_of_mem x k)))

-- The message with a key.
with_key :
    (key : Text) (seen : List NatsMessage)
    → any (λ s. message_key s == key) seen ≡ true
    → HaveNoColon seen
    → (s : NatsMessage) × Mem s seen × (message_key s ≡ key) × HasNoColon (or_default [] s.conn_id)
with_key key [] h c = absurd (cc (h))
with_key key (s ∷ seen) h c = elim (Bool-cases (message_key s == key)) [
  | inl e ↦ (s, mem-cons_self, (text_beq_iff (message_key s) key).0 e, c.0)
  | inr e ↦ let t = with_key key seen (rw e at h) c.1 in (t.0, mem-cons_of_mem s t.1, t.2, t.3)
]

loaded_from :
    (seen page msgs : List NatsMessage)
    → HaveNoColon seen
    → HaveNoColon msgs
    → All (λ m. Mem m page) msgs
    → All (λ m. (n : NatsMessage) × Mem n (unseen seen page ++ seen) × IsSame n m) msgs
loaded_from seen page [] cs cm a = tt
loaded_from seen page (m ∷ msgs) cs cm a = (
  elim (Bool-cases (any (λ s. message_key s == message_key m) seen)) [
    | inl e ↦
        let t = with_key (message_key m) seen e cs in
        (t.0, mem-append_right _ t.1, message_key-IsSame t.0 m t.3 cm.0 t.2)
    | inr e ↦ (
      m,
      mem-append_left seen (unfold unseen unseen_by in mem_filter _ m page (rw e refl) a.0),
      record { conn = refl; subject = refl; timestamp = refl; sequence = refl },
    )
  ],
  loaded_from seen page msgs cs cm.1 a.1,
)

length-unseen : (seen page : List NatsMessage) → length (unseen seen page) ≤ length page
unfolding unseen unseen_by
length-unseen seen page = length-filter _ page

moved_over :
    (page before xs ys : List NatsMessage)
    → Perm ys xs
    → All (λ m. Mem m xs) before
    → All (λ m. (n : NatsMessage) × Mem n xs × IsSame n m) page
    → IsLoaded page before ys
moved_over page before xs ys p k l = record { kept = kept before k; loaded = loaded page l }
  where
    kept : (ms : List NatsMessage) → All (λ m. Mem m xs) ms → All (λ m. Mem m ys) ms
    kept [] a = tt
    kept (m ∷ ms) a = ((Perm.mem_iff (Perm.symm p)).0 a.0, kept ms a.1)

    loaded :
        (ms : List NatsMessage)
        → All (λ m. (n : NatsMessage) × Mem n xs × IsSame n m) ms
        → All (λ m. (n : NatsMessage) × Mem n ys × IsSame n m) ms
    loaded [] a = tt
    loaded (m ∷ ms) a = ((a.0.0, (Perm.mem_iff (Perm.symm p)).0 a.0.1, a.0.2), loaded ms a.1)

-- Loading an older page loses nothing: afterwards the view holds every message it held, and every message
-- of the page, or one of the same connection and subject with the same time and number. Conditions: the
-- page and the view together hold at most 10,000 messages, and no id of a connection has a colon.
pub with_older-IsLoaded :
    (page : List NatsMessage) (at_oldest : Bool) (v : LiveView)
    → length page + length v.messages ≤ max_loaded_messages
    → HaveNoColon page
    → HaveNoColon v.messages
    → IsLoaded page v.messages (with_older page at_oldest v).messages
with_older-IsLoaded page at_oldest v h cp cv =
    moved_over page v.messages (unseen v.messages page ++ v.messages) _
      (with_older-perm page at_oldest v (omega (arith, h, length-unseen v.messages page)))
      (all_mem v.messages (λ m k. mem-append_right _ k))
      (loaded_from v.messages page page cv cp (all_mem page (λ m k. k)))
