-- ===== src/Prelude/Strings.antt =====
-- JavaScript strings as sequences of UTF-16 code units, with an equality that is an instance.
use Prim.Native.Nat.{ℕ}
use Prim.Native.Char.{code}
use Prim.Native.String.{String}
use mathlib.Core.Path.{◌≡◌, refl}
use mathlib.Core.Logic.{◌↔◌, ◌≢◌}
use mathlib.Core.Bool.{Bool, true, false, ◌&&◌, ◌||◌}
use mathlib.Core.List.{List, [], ◌∷◌, ◌++◌}
use native.Mathlib.Omega.{arith}
use nats_explorer.Prelude.Tests.{if◌then◌else◌, leb, nat_beq, nat_beq_iff}

-- A test of equality that decides it.
pub record Equality {ℓ} (A : Type ℓ) : Type ℓ where
  pub test : A → A → Bool
  pub test_iff : (x y : A) → (test x y ≡ true) ↔ (x ≡ y)

instance abbrev pub nat_eq : Equality ℕ
nat_eq = record { test = nat_beq; test_iff = nat_beq_iff }

-- `===`, for every type that has an instance.
abbrev pub ◌==◌ {ℓ} : {A : Type ℓ} ⦃equality : Equality A⦄ → A → A → Bool
◌==◌ ⦃equality⦄ = equality.test

infix 50 ◌==◌
abbrev pub Text : Type 0
Text = List ℕ

-- The code units of a literal; the literals of the model are in the basic multilingual plane.
abbrev pub codes : String → Text
codes String.[] = []
codes (String.◌∷◌ c s) = code c ∷ codes s

unfoldable pub text_beq : Text → Text → Bool
text_beq [] [] = true
text_beq [] (y ∷ ys) = false
text_beq (x ∷ xs) [] = false
text_beq (x ∷ xs) (y ∷ ys) = nat_beq x y && text_beq xs ys

text_beq→eq : (a b : Text) → text_beq a b ≡ true → a ≡ b
unfolding text_beq
text_beq→eq [] [] h = refl
text_beq→eq [] (y ∷ ys) h = cc
text_beq→eq (x ∷ xs) [] h = cc
text_beq→eq (x ∷ xs) (y ∷ ys) h = ground (arith, text_beq→eq xs ys)

text_beq_refl : (a : Text) → text_beq a a ≡ true
unfolding text_beq
text_beq_refl [] = refl
text_beq_refl (x ∷ xs) = ground (arith, text_beq_refl xs)

text_beq_of_eq : (a b : Text) → a ≡ b → text_beq a b ≡ true
text_beq_of_eq a b h = rw h (text_beq_refl b)

pub text_beq_iff : (a b : Text) → (text_beq a b ≡ true) ↔ (a ≡ b)
text_beq_iff a b = (text_beq→eq a b, text_beq_of_eq a b)

instance abbrev pub text_eq : Equality Text
text_eq = record { test = text_beq; test_iff = text_beq_iff }

-- Two texts that the test tells apart are different.
pub texts_ne : (a b : Text) → text_beq a b ≡ false → a ≢ b
texts_ne a b h e = absurd (cc ((text_beq_iff a b).1 e, h))

-- `s.startsWith(prefix)`, the prefix first.
unfoldable pub starts_with : Text → Text → Bool
starts_with [] s = true
starts_with (p ∷ ps) [] = false
starts_with (p ∷ ps) (c ∷ s) = nat_beq p c && starts_with ps s

pub starts_with-append : (p s : Text) → starts_with p (p ++ s) ≡ true
unfolding starts_with
starts_with-append [] s = refl
starts_with-append (c ∷ p) s = ground (arith, starts_with-append p s)

abbrev pub extend_first : ℕ → List Text → List Text
extend_first c [] = (c ∷ []) ∷ []
extend_first c (part ∷ parts) = (c ∷ part) ∷ parts

-- `s.split(sep)` for a separator of one code unit.
unfoldable pub split_on : ℕ → Text → List Text
split_on sep [] = [] ∷ []
split_on sep (c ∷ s) =
    let parts = split_on sep s in if nat_beq c sep then [] ∷ parts else extend_first c parts

-- `parts.join(sep)`.
unfoldable pub join_with : Text → List Text → Text
join_with sep [] = []
join_with sep (p ∷ []) = p
join_with sep (p ∷ q ∷ ps) = p ++ (sep ++ join_with sep (q ∷ ps))

-- What `trim` and `\s` take for white space: the white space and line ends of the language and the space
-- separators of Unicode.
abbrev pub is_space : ℕ → Bool
is_space c =
    nat_beq c 32
    || nat_beq c 9
    || nat_beq c 10
    || nat_beq c 11
    || nat_beq c 12
    || nat_beq c 13
    || nat_beq c 160
    || nat_beq c 5760
    || (leb 8192 c && leb c 8202)
    || nat_beq c 8232
    || nat_beq c 8233
    || nat_beq c 8239
    || nat_beq c 8287
    || nat_beq c 12288
    || nat_beq c 65279
