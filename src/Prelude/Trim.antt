-- ===== src/Prelude/Trim.antt =====
-- White space at the ends of a text, and texts that count as missing when they are empty.
use mathlib.Core.Path.{◌≡◌, refl, sym, ap, ◌∙◌}
use mathlib.Core.Logic.{inl, inr}
use mathlib.Core.Bool.{false}
use mathlib.Core.List.{[], ◌∷◌, ◌++◌, reverse, reverse-append, reverse-reverse}
use mathlib.Core.Option.{Option, none, some}
use nats_explorer.Prelude.Tests.{if◌then◌else◌, Bool-cases}
use nats_explorer.Prelude.Strings.{Text, is_space}

abbrev pub skip_blank : Text → Text
skip_blank [] = []
skip_blank (c ∷ s) = let rest = skip_blank s in if is_space c then rest else c ∷ s

-- `String.prototype.trim`.
unfoldable pub trim : Text → Text
trim s = reverse (skip_blank (reverse (skip_blank s)))

-- `s || undefined`: an empty text is as good as none.
abbrev pub some_text : Text → Option Text
some_text [] = none
some_text (c ∷ s) = some (c ∷ s)

abbrev pub or_none : Option Text → Option Text
or_none none = none
or_none (some s) = some_text s

-- A text that does not start with white space.
abbrev Solid : Text → Type 0
Solid [] = Unit
Solid (c ∷ s) = is_space c ≡ false

skip_blank-Solid : (s : Text) → Solid (skip_blank s)
skip_blank-Solid [] = tt
skip_blank-Solid (c ∷ s) = elim (Bool-cases (is_space c)) [
  | inl e ↦ rw e (skip_blank-Solid s)
  | inr e ↦ rw e e
]

skip_blank_id : (s : Text) → Solid s → skip_blank s ≡ s
skip_blank_id [] h = refl
skip_blank_id (c ∷ s) h = rw h refl

Solid-append : (s t : Text) → Solid (s ++ t) → Solid s
Solid-append [] t h = tt
Solid-append (c ∷ s) t h = h

skip_blank_end : (s : Text) → (blank : Text) × (s ≡ blank ++ skip_blank s)
skip_blank_end [] = ([], refl)
skip_blank_end (c ∷ s) = elim (Bool-cases (is_space c)) [
  | inl e ↦ let t = skip_blank_end s in rw e (c ∷ t.0, ap (◌∷◌ c) t.1)
  | inr e ↦ rw e ([], refl)
]

trim_start : (t : Text) → Solid t → Solid (reverse (skip_blank (reverse t)))
trim_start t h =
    let cut = skip_blank_end (reverse t) in
    let whole : t ≡ reverse (skip_blank (reverse t)) ++ reverse cut.0 =
      sym (reverse-reverse t) ∙ ap reverse cut.1 ∙ reverse-append cut.0 (skip_blank (reverse t)) in
    Solid-append (reverse (skip_blank (reverse t))) (reverse cut.0) (rw whole at h)

pub trim-trim : (s : Text) → trim (trim s) ≡ trim s
unfolding trim
trim-trim s =
    let u = skip_blank (reverse (skip_blank s)) in
    let start : skip_blank (reverse u) ≡ reverse u =
      skip_blank_id (reverse u) (trim_start (skip_blank s) (skip_blank-Solid s)) in
    ap (λ t. reverse (skip_blank (reverse t))) start
    ∙ ap (λ t. reverse (skip_blank t)) (reverse-reverse u)
    ∙ ap reverse (skip_blank_id u (skip_blank-Solid (reverse (skip_blank s))))
