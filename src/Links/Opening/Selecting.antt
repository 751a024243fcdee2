-- ===== src/Links/Opening/Selecting.antt =====
-- What selecting on the page leaves of what a link reads.
use nats_explorer.Prelude.{
  Text, text_beq_iff, text_eq, Bool, true, false, ◌&&◌, Option, none, some, length, leb, ◌≡◌, refl,
  ap, inl, inr, Bool-cases,
}
use nats_explorer.Prelude.Trim.{or_none}
use nats_explorer.Store.{AppState, TimeRange}
use nats_explorer.Store.Selection.{same_text, select, set_selected_subject}
use nats_explorer.Store.Expansion.{reveal_subject}
use nats_explorer.Store.Connections.{set_selected_kv_bucket}
use nats_explorer.Links.{Module, subjects, kv, module_link, with_subject, with_bucket}
use nats_explorer.Links.Opening.{unselect}

pub same_text→eq : (a b : Option Text) → same_text a b ≡ true → a ≡ b
unfolding same_text
same_text→eq none none h = refl
same_text→eq none (some b) h = absurd (cc (h))
same_text→eq (some a) none h = absurd (cc (h))
same_text→eq (some a) (some b) h = ap some ((text_beq_iff a b).0 h)

-- What selecting a subject leaves of what a link reads.
pub record IsChosen (subject : Option Text) (s out : AppState) : Type 0 where
  pub selected : out.selected_subject ≡ subject
  pub no_range : out.range ≡ none
  pub conn : out.active_conn_id ≡ s.active_conn_id

select-IsChosen : (subject : Option Text) (s : AppState) → IsChosen subject s (select subject s)
unfolding select
select-IsChosen none s = record { selected = refl; no_range = refl; conn = refl }
select-IsChosen (some subject) s = record { selected = refl; no_range = refl; conn = refl }

pub left_of : (a b : Bool) → (a && b) ≡ true → a ≡ true
left_of true b h = refl
left_of false b h = absurd (cc (h))

set_selected_subject-IsChosen :
    (subject : Option Text) (s : AppState)
    → s.range ≡ none
    → IsChosen subject s (set_selected_subject subject s)
unfolding set_selected_subject
set_selected_subject-IsChosen subject s h =
    elim (Bool-cases (same_text s.selected_subject subject && leb (length s.selected_subjects) 1)) [
      | inl e ↦ rw e record {
        selected = same_text→eq s.selected_subject subject (left_of _ _ e);
        no_range = h;
        conn = refl;
      }
      | inr e ↦ rw e (select-IsChosen subject s)
    ]

pub reveal_subject-IsChosen :
    (subject : Text) (s : AppState)
    → s.range ≡ none
    → IsChosen (some subject) s (reveal_subject subject s)
unfolding reveal_subject
reveal_subject-IsChosen subject s h =
    let c = set_selected_subject-IsChosen (some subject) (record s { expanded = _ }) h in
    record { selected = c.selected; no_range = c.no_range; conn = c.conn }

pub module_link-conn :
    (m : Module) (a b : Option Text) → or_none a ≡ or_none b → module_link m a ≡ module_link m b
module_link-conn m a b h = λ i. record (module_link m a) { conn = h i }

pub subject_link :
    (a b x y : Option Text) (r q : Option TimeRange)
    → x ≡ y
    → r ≡ q
    → or_none a ≡ or_none b
    → with_subject x r (module_link subjects a) ≡ with_subject y q (module_link subjects b)
subject_link a b x y r q h k c = λ i. with_subject (h i) (k i) (module_link-conn subjects a b c i)

pub bucket_link :
    (a b x y k l : Option Text)
    → x ≡ y
    → k ≡ l
    → or_none a ≡ or_none b
    → with_bucket x k (module_link kv a) ≡ with_bucket y l (module_link kv b)
bucket_link a b x y k l h e c = λ i. with_bucket (h i) (e i) (module_link-conn kv a b c i)

pub unselect_lem :
    (x : Option Text) (s : AppState)
    → s.range ≡ none
    → or_none s.selected_subject ≡ x
    → (or_none (unselect x s).selected_subject ≡ none)
      × ((unselect x s).active_conn_id ≡ s.active_conn_id)
unselect_lem none s r h = (h, refl)
unselect_lem (some y) s r h =
    let c = set_selected_subject-IsChosen none s r in (ap or_none c.selected, c.conn)

pub kv_bucket_lem :
    (x : Option Text) (s : AppState)
    → ((set_selected_kv_bucket x s).selected_kv_bucket ≡ x)
      × ((set_selected_kv_bucket x s).active_conn_id ≡ s.active_conn_id)
unfolding set_selected_kv_bucket
kv_bucket_lem x s = elim (Bool-cases (same_text s.selected_kv_bucket x)) [
  | inl e ↦ rw e (same_text→eq s.selected_kv_bucket x e, refl)
  | inr e ↦ rw e (refl, refl)
]
