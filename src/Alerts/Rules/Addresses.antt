-- ===== src/Alerts/Rules/Addresses.antt =====
-- The recipients of a rule, as `split(/[,; ]+/)` takes them apart.
use nats_explorer.Prelude.{
  ℕ, Text, List, [], ◌∷◌, ◌++◌, Bool, true, false, ◌||◌, any, nat_beq, ◌≡◌, ◌≢◌, refl, ap, arith,
  All, ◌⊎◌, inl, inr, Bool-cases, extend_first,
}
use nats_explorer.Prelude.Tests.{nat_beq_iff}
use nats_explorer.Alerts.Rules.{recipients, bad_address}

-- A comma, a semicolon or a blank.
abbrev pub IsSeparator : ℕ → Type 0
IsSeparator c = (c ≡ b',') ⊎ (c ≡ b';') ⊎ (c ≡ b' ')

abbrev pub IsOther : ℕ → Type 0
IsOther c = (c ≢ b',') × (c ≢ b';') × (c ≢ b' ')

-- Nothing, or a separator first.
abbrev pub IsBoundary : Text → Type 0
IsBoundary [] = Unit
IsBoundary (c ∷ s) = IsSeparator c

abbrev pub HasAt : Text → Type 0
HasAt a = (before after : Text) × (a ≡ before ++ b'@' ∷ after)

-- Addresses with an @, up to separators.
pub data IsAddresses : Text → Type 0 where
  no_more : IsAddresses []
  separator : {s : Text} (c : ℕ) → IsSeparator c → IsAddresses s → IsAddresses (c ∷ s)
  address :
      {s : Text} (a : Text)
      → HasAt a
      → All IsOther a
      → IsBoundary s
      → IsAddresses s
      → IsAddresses (a ++ s)

abbrev later : List Text → List Text
later [] = []
later (p ∷ ps) = ps

-- The first piece of a text and what follows it.
record Cut (s : Text) : Type 0 where
  a : Text
  rest : Text
  pieces : List Text
  parts : s ≡ a ++ rest
  inside : All IsOther a
  boundary : IsBoundary rest
  addresses : IsAddresses rest
  first : recipients s ≡ a ∷ pieces

later-extend_first : (c : ℕ) (ps : List Text) → later (extend_first c ps) ≡ later ps
later-extend_first c [] = refl
later-extend_first c (p ∷ ps) = refl

extend_first-first :
    (c : ℕ) (a : Text) (ps pieces : List Text)
    → ps ≡ a ∷ pieces
    → extend_first c ps ≡ (c ∷ a) ∷ pieces
extend_first-first c a ps pieces h = rw h refl

any-later : (ps : List Text) → any bad_address ps ≡ false → any bad_address (later ps) ≡ false
any-later [] h = refl
any-later (p ∷ ps) h = ground (arith, h)

any-head : (p : Text) (ps : List Text) → any bad_address (p ∷ ps) ≡ false → bad_address p ≡ false
any-head p ps h = ground (arith, h)

at_inside : (a : Text) → any (λ c. nat_beq c b'@') a ≡ true → HasAt a
at_inside [] h = absurd (cc (h))
at_inside (c ∷ a) h = elim (Bool-cases (nat_beq c b'@')) [
  | inl e ↦ ([], a, ap (λ (d : ℕ). d ∷ a) ((nat_beq_iff c b'@').0 e))
  | inr e ↦ let t = at_inside a (rw e at h) in (c ∷ t.0, t.1, ap (◌∷◌ c) t.2)
]

good-HasAt : (c : ℕ) (a : Text) → bad_address (c ∷ a) ≡ false → HasAt (c ∷ a)
unfolding bad_address
good-HasAt c a h = elim (Bool-cases (any (λ d. nat_beq d b'@') (c ∷ a))) [
  | inl e ↦ at_inside (c ∷ a) e
  | inr e ↦ absurd (cc (rw e at h))
]

-- A piece in front of addresses.
joined-IsAddresses :
    (a rest : Text)
    → bad_address a ≡ false
    → All IsOther a
    → IsBoundary rest
    → IsAddresses rest
    → IsAddresses (a ++ rest)
joined-IsAddresses [] rest h o b r = r
joined-IsAddresses (c ∷ a) rest h o b r = address (c ∷ a) (good-HasAt c a h) o b r

first_piece-IsAddresses :
    (s : Text) → any bad_address (recipients s) ≡ false → Cut s → IsAddresses s
first_piece-IsAddresses s h t = rw t.parts (
    joined-IsAddresses t.a t.rest (any-head t.a t.pieces (rw t.first at h)) t.inside t.boundary
      t.addresses)

abbrev separates : ℕ → Bool
separates c = nat_beq c b',' || nat_beq c b';' || nat_beq c b' '

separates-IsSeparator : (c : ℕ) → separates c ≡ true → IsSeparator c
separates-IsSeparator c h = ground arith

separates-IsOther : (c : ℕ) → separates c ≡ false → IsOther c
separates-IsOther c h =
    ((λ e. absurd (ground arith)), (λ e. absurd (ground arith)), (λ e. absurd (ground arith)))

first_piece : (s : Text) → any bad_address (later (recipients s)) ≡ false → Cut s
unfolding recipients
first_piece [] h = record {
  a = [];
  rest = [];
  pieces = [];
  parts = refl;
  inside = tt;
  boundary = tt;
  addresses = no_more;
  first = refl;
}
first_piece (c ∷ s) h = elim (Bool-cases (separates c)) [
  | inl e ↦
      let all : any bad_address (recipients s) ≡ false = rw e at h in
      record {
        a = [];
        rest = c ∷ s;
        pieces = recipients s;
        parts = refl;
        inside = tt;
        boundary = separates-IsSeparator c e;
        addresses =
            separator c (separates-IsSeparator c e)
              (first_piece-IsAddresses s all (first_piece s (any-later (recipients s) all)));
        first = rw e refl;
      }
  | inr e ↦
      let t = first_piece s (rw (e, later-extend_first c (recipients s)) at h) in
      record {
        a = c ∷ t.a;
        rest = t.rest;
        pieces = t.pieces;
        parts = ap (◌∷◌ c) t.parts;
        inside = (separates-IsOther c e, t.inside);
        boundary = t.boundary;
        addresses = t.addresses;
        first = rw e (extend_first-first c t.a (recipients s) t.pieces t.first);
      }
]

-- Where no piece is refused, the text is one of addresses and separators.
pub recipients-IsAddresses : (s : Text) → any bad_address (recipients s) ≡ false → IsAddresses s
recipients-IsAddresses s h =
    first_piece-IsAddresses s h (first_piece s (any-later (recipients s) h))
