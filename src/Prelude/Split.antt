-- ===== src/Prelude/Split.antt =====
-- `split` and `join` are inverse to one another.
use mathlib.Core.Path.{◌≡◌, refl, ap, ◌∙◌}
use mathlib.Core.Logic.{◌≢◌, inl, inr}
use mathlib.Core.Bool.{false}
use mathlib.Core.List.{List, [], ◌∷◌, ◌++◌}
use Prim.Native.Nat.{ℕ}
use native.Mathlib.Omega.{arith}
use nats_explorer.Prelude.Tests.{nat_beq, nat_beq_iff, Bool-cases}
use nats_explorer.Prelude.Lists.{All}
use nats_explorer.Prelude.Strings.{Text, split_on, join_with}

abbrev pub Lacks : ℕ → Text → Type 0
Lacks sep = All (λ c. c ≢ sep)

pub split_on-cons : (sep : ℕ) (s : Text) → (p : Text) × (ps : List Text) × (split_on sep s ≡ p ∷ ps)
unfolding split_on
split_on-cons sep [] = ([], [], refl)
split_on-cons sep (c ∷ s) =
    let (p, ps, e) = split_on-cons sep s in
    elim (Bool-cases (nat_beq c sep)) [
      | inl h ↦ ([], p ∷ ps, rw (h, e))
      | inr h ↦ (c ∷ p, ps, rw (h, e))
    ]

pub split_on-Lacks : (sep : ℕ) (s : Text) → All (Lacks sep) (split_on sep s)
unfolding split_on
split_on-Lacks sep [] = (tt, tt)
split_on-Lacks sep (c ∷ s) =
    let (p, ps, e) = split_on-cons sep s in
    let ih : All (Lacks sep) (p ∷ ps) = rw e at (split_on-Lacks sep s) in
    elim (Bool-cases (nat_beq c sep)) [
      | inl h ↦ rw (h, e) (tt, ih)
      | inr h ↦ rw (h, e) ((differs h, ih.0), ih.1)
    ]
  where
    differs : nat_beq c sep ≡ false → c ≢ sep
    differs h e = ground (arith, nat_beq_iff c sep)

join_with-extend :
    (sep : Text) (c : ℕ) (p : Text) (ps : List Text)
    → join_with sep ((c ∷ p) ∷ ps) ≡ c ∷ join_with sep (p ∷ ps)
unfolding join_with
join_with-extend sep c p [] = refl
join_with-extend sep c p (q ∷ ps) = refl

join_with-nil :
    (sep : ℕ) (p : Text) (ps : List Text)
    → join_with (sep ∷ []) ([] ∷ p ∷ ps) ≡ sep ∷ join_with (sep ∷ []) (p ∷ ps)
unfolding join_with
join_with-nil sep p ps = refl

-- Joining the parts of a split gives the text back.
pub join-split : (sep : ℕ) (s : Text) → join_with (sep ∷ []) (split_on sep s) ≡ s
unfolding split_on
join-split sep [] = unfold join_with in refl
join-split sep (c ∷ s) =
    let (p, ps, e) = split_on-cons sep s in
    let ih : join_with (sep ∷ []) (p ∷ ps) ≡ s = rw e at (join-split sep s) in
    elim (Bool-cases (nat_beq c sep)) [
      | inl h ↦ rw (h, e) (cc (join_with-nil sep p ps, ih, (nat_beq_iff c sep).0 h))
      | inr h ↦ rw (h, e) (join_with-extend (sep ∷ []) c p ps ∙ ap (◌∷◌ c) ih)
    ]

split_on-lacking : (sep : ℕ) (p : Text) → Lacks sep p → split_on sep p ≡ p ∷ []
unfolding split_on
split_on-lacking sep [] h = refl
split_on-lacking sep (c ∷ p) h = ground (arith, split_on-lacking sep p h.1, nat_beq_iff c sep)

split_on-append :
    (sep : ℕ) (p s : Text) → Lacks sep p → split_on sep (p ++ sep ∷ s) ≡ p ∷ split_on sep s
unfolding split_on
split_on-append sep [] s h = ground (arith, nat_beq_iff sep sep)
split_on-append sep (c ∷ p) s h = ground (arith, split_on-append sep p s h.1, nat_beq_iff c sep)

-- Splitting a join gives the parts back, if there is a part and none holds the separator.
pub split-join :
    (sep : ℕ) (p : Text) (ps : List Text)
    → All (Lacks sep) (p ∷ ps)
    → split_on sep (join_with (sep ∷ []) (p ∷ ps)) ≡ p ∷ ps
unfolding join_with
split-join sep p [] h = split_on-lacking sep p h.0
split-join sep p (q ∷ ps) h = split_on-append sep p _ h.0 ∙ ap (◌∷◌ p) (split-join sep q ps h.1)
