-- ===== src/Subjects/Match/Overlaps.antt =====
-- `overlappingPatterns` against `covers`.
use mathlib.Core.Bool.{false≢true}
use mathlib.Core.List.{
  Mem, Mem-prop, mem-append_left, mem-append_right, mem-cons, mem-cons_self, mem-cons_of_mem,
  not-mem-nil,
}
use mathlib.Core.Logic.Or
use nats_explorer.Prelude.{
  Text, List, [], ◌∷◌, not, ◌&&◌, true, ◌≡◌, ◌≢◌, sym, ◌∙◌, inl, inr, arith, text_beq_iff,
  Bool-cases, ◌==◌, text_eq, All, All-append,
}
use nats_explorer.Subjects.Match.{covers, overlaps_of, overlaps_from, overlapping_patterns}

-- A pair as the list holds it: the patterns differ, and the first covers the second.
abbrev pub IsOverlap : Text × Text → Type 0
IsOverlap (wide, narrow) = (wide ≢ narrow) × (covers wide narrow ≡ true)

overlaps_of_sound : (wide : Text) (ps : List Text) → All IsOverlap (overlaps_of wide ps)
unfolding overlaps_of
overlaps_of_sound wide [] = tt
overlaps_of_sound wide (p ∷ ps) = ground (arith, overlaps_of_sound wide ps, text_beq_iff wide p)

overlaps_from_sound : (ps rest : List Text) → All IsOverlap (overlaps_from ps rest)
unfolding overlaps_from
overlaps_from_sound ps [] = tt
overlaps_from_sound ps (wide ∷ rest) =
    All-append IsOverlap (overlaps_of wide ps) _ (overlaps_of_sound wide ps)
      (overlaps_from_sound ps rest)

overlaps_of-complete :
    (wide narrow : Text) (ps : List Text)
    → wide ≢ narrow
    → covers wide narrow ≡ true
    → Mem narrow ps
    → Mem (wide, narrow) (overlaps_of wide ps)
unfolding overlaps_of
overlaps_of-complete wide narrow [] d c m = absurd (not-mem-nil m)
overlaps_of-complete wide narrow (p ∷ ps) d c m =
    elim (Bool-cases (not (wide == p) && covers wide p)) [
      | inl k ↦ rw k (
          Or.elim Mem-prop (mem-cons.0 m) (λ e. rw e mem-cons_self)
            (λ t. mem-cons_of_mem _ (overlaps_of-complete wide narrow ps d c t)))
      | inr k ↦ rw k (
          Or.elim Mem-prop (mem-cons.0 m) (λ e. absurd (false≢true (sym k ∙ hit (sym e))))
            (overlaps_of-complete wide narrow ps d c))
    ]
  where
    hit : p ≡ narrow → (not (wide == p) && covers wide p) ≡ true
    hit e = ground (arith, text_beq_iff wide p)

overlaps_from-complete :
    (ps rest : List Text) (wide narrow : Text)
    → Mem wide rest
    → Mem narrow ps
    → wide ≢ narrow
    → covers wide narrow ≡ true
    → Mem (wide, narrow) (overlaps_from ps rest)
unfolding overlaps_from
overlaps_from-complete ps [] wide narrow w n d c = absurd (not-mem-nil w)
overlaps_from-complete ps (x ∷ rest) wide narrow w n d c =
    Or.elim Mem-prop (mem-cons.0 w)
      (λ e.
        mem-append_left {s = overlaps_of x ps} (overlaps_from ps rest)
          (rw (← e) (overlaps_of-complete wide narrow ps d c n)))
      (λ t. mem-append_right _ (overlaps_from-complete ps rest wide narrow t n d c))

-- Every pair listed is of different patterns of which the first covers the second.
overlapping_patterns_sound : (ps : List Text) → All IsOverlap (overlapping_patterns ps)
unfolding overlapping_patterns
overlapping_patterns_sound ps = overlaps_from_sound ps ps

-- Of the given patterns, every two different ones of which the first covers the second are listed.
overlapping_patterns_complete :
    (ps : List Text) (wide narrow : Text)
    → Mem wide ps
    → Mem narrow ps
    → wide ≢ narrow
    → covers wide narrow ≡ true
    → Mem (wide, narrow) (overlapping_patterns ps)
unfolding overlapping_patterns
overlapping_patterns_complete ps = overlaps_from-complete ps ps
