-- ===== src/Store/Branches.antt =====
-- Opening and closing branches of the tree: what a toggle and a reveal change, and what they leave.
use nats_explorer.Prelude.{
  Text, text_beq_iff, List, [], ◌∷◌, ◌++◌, Bool, true, false, not, Option, none, some, ◌≡◌, refl,
  sym, ◌∙◌, ap, arith, ◌==◌, text_eq, All, inl, inr, Bool-cases, if◌then◌else◌, ◌&&◌, length, leb,
}
use nats_explorer.Store.{AppState}
use nats_explorer.Store.Selection.{set_selected_subject, select, same_text}
use nats_explorer.Store.Expansion.{
  contains, add, discard, flip, is_filtering, is_expanded, toggle_expanded, open_all, ancestors_of,
  reveal_subject,
}

map-All :
    {A : Type 0} {P Q : A → Type 0} → ((x : A) → P x → Q x) → (xs : List A) → All P xs → All Q xs
map-All f [] h = tt
map-All f (x ∷ xs) h = (f x h.0, map-All f xs h.1)

contains-append :
    (p q : Text) (ps : List Text)
    → contains p (ps ++ q ∷ []) ≡ (if q == p then true else contains p ps)
unfolding contains
contains-append p q [] = ground arith
contains-append p q (r ∷ ps) = ground (arith, contains-append p q ps)

contains-add :
    (p q : Text) (ps : List Text) → contains p (add q ps) ≡ (if q == p then true else contains p ps)
unfolding add
contains-add p q ps = elim (Bool-cases (contains q ps)) [
  | inl e ↦ rw e (elim (Bool-cases (q == p)) [
    | inl h ↦ rw h (rw ((text_beq_iff q p).0 h) at e)
    | inr h ↦ rw h
  ])
  | inr e ↦ rw e (contains-append p q ps)
]

contains-discard :
    (p q : Text) (ps : List Text)
    → contains p (discard q ps) ≡ (if q == p then false else contains p ps)
unfolding contains discard
contains-discard p q [] = ground arith
contains-discard p q (r ∷ ps) =
    ground (arith, contains-discard p q ps, text_beq_iff r q, text_beq_iff r p, text_beq_iff q p)

contains-flip :
    (p q : Text) (ps : List Text)
    → contains p (flip q ps) ≡ (if q == p then not (contains p ps) else contains p ps)
unfolding flip
contains-flip p q ps = elim (Bool-cases (q == p)) [
  | inl h ↦ elim (Bool-cases (contains q ps)) [
    | inl e ↦
        rw
          (e, contains-discard p q ps, h, sym (ap (λ r. contains r ps) ((text_beq_iff q p).0 h)), e)
    | inr e ↦
        rw (e, contains-add p q ps, h, sym (ap (λ r. contains r ps) ((text_beq_iff q p).0 h)), e)
  ]
  | inr h ↦ elim (Bool-cases (contains q ps)) [
    | inl e ↦ rw (e, contains-discard p q ps, h)
    | inr e ↦ rw (e, contains-add p q ps, h)
  ]
]

negated : (test b : Bool) → not (if test then not b else b) ≡ (if test then not (not b) else not b)
negated true b = refl
negated false b = refl

-- A toggle turns the branch over and leaves every other branch as it was.
is_expanded-toggle_expanded :
    (path other : Text) (s : AppState)
    → is_expanded other (toggle_expanded path s)
      ≡ (if path == other then not (is_expanded other s) else is_expanded other s)
unfolding is_expanded toggle_expanded
is_expanded-toggle_expanded path other s = elim (Bool-cases (is_filtering s.subject_filter)) [
  | inl f ↦
      rw (f, f, contains-flip other path s.filter_collapsed)
        (negated (path == other) (contains other s.filter_collapsed))
  | inr f ↦ elim (Bool-cases s.expand_all) [
    | inl e ↦
        rw (f, f, e, contains-flip other path s.expanded)
          (negated (path == other) (contains other s.expanded))
    | inr e ↦ rw (f, f, e, contains-flip other path s.expanded)
  ]
]

contains-open_all :
    (p : Text) (all : Bool) (ps expanded : List Text)
    → (if all then not (contains p expanded) else contains p expanded) ≡ true
    → (if all
        then not (contains p (open_all all ps expanded))
        else contains p (open_all all ps expanded))
      ≡ true
unfolding open_all
contains-open_all p all [] expanded h = h
contains-open_all p true (q ∷ ps) expanded h =
    contains-open_all p true ps (discard q expanded)
      (ground (arith, contains-discard p q expanded, h))
contains-open_all p false (q ∷ ps) expanded h =
    contains-open_all p false ps (add q expanded) (ground (arith, contains-add p q expanded, h))

open_all-All :
    (all : Bool) (ps expanded : List Text)
    → All
        (λ p.
          (if all
            then not (contains p (open_all all ps expanded))
            else contains p (open_all all ps expanded))
          ≡ true)
        ps
unfolding open_all
open_all-All all [] expanded = tt
open_all-All true (q ∷ ps) expanded = (
  contains-open_all q true ps (discard q expanded)
      (ground (arith, contains-discard q q expanded, (text_beq_iff q q).1 refl)),
  open_all-All true ps (discard q expanded),
)
open_all-All false (q ∷ ps) expanded = (
  contains-open_all q false ps (add q expanded)
      (ground (arith, contains-add q q expanded, (text_beq_iff q q).1 refl)),
  open_all-All false ps (add q expanded),
)

is_expanded-select :
    (p : Text) (subject : Option Text) (s : AppState)
    → is_expanded p (select subject s) ≡ is_expanded p s
unfolding is_expanded select
is_expanded-select p none s = refl
is_expanded-select p (some subject) s = refl

is_expanded-set_selected_subject :
    (p : Text) (subject : Option Text) (s : AppState)
    → is_expanded p (set_selected_subject subject s) ≡ is_expanded p s
unfolding is_expanded set_selected_subject
is_expanded-set_selected_subject p subject s =
    elim (Bool-cases (same_text s.selected_subject subject && leb (length s.selected_subjects) 1)) [
      | inl e ↦ rw e
      | inr e ↦ rw e (is_expanded-select p subject s)
    ]

abbrev opened : Text → AppState → List Text
opened subject s = open_all s.expand_all (ancestors_of subject) s.expanded

is_expanded-opened :
    (subject p : Text) (s : AppState)
    → is_filtering s.subject_filter ≡ false
    → (if s.expand_all then not (contains p (opened subject s)) else contains p (opened subject s))
      ≡ true
    → is_expanded p (reveal_subject subject s) ≡ true
unfolding reveal_subject
is_expanded-opened subject p s h e =
    is_expanded-set_selected_subject p (some subject) (record s { expanded = opened subject s })
    ∙ (unfold is_expanded in rw h e)

-- With no filter on, all the branches above a revealed subject are open.
is_expanded-reveal_subject :
    (subject : Text) (s : AppState)
    → is_filtering s.subject_filter ≡ false
    → All (λ p. is_expanded p (reveal_subject subject s) ≡ true) (ancestors_of subject)
is_expanded-reveal_subject subject s h =
    map-All (λ p. is_expanded-opened subject p s h) (ancestors_of subject)
      (open_all-All s.expand_all (ancestors_of subject) s.expanded)
