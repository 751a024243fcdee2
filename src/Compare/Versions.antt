-- ===== src/Compare/Versions.antt =====
-- client/src/lib/updateCheck.ts: `isNewer`. A part of a version is a natural number of any size, where the
-- source has a floating-point number.
pub mod Order
use nats_explorer.Prelude.{
  ℕ, zero, suc, ◌+◌, ◌*◌, ◌-◌, Text, text_beq, List, [], ◌∷◌, map, Bool, true, false, ◌&&◌, ◌||◌,
  if◌then◌else◌, leb, ltb, nat_beq, is_space,
}

-- `v.replace(/^v/, '')`.
unfoldable pub without_v : Text → Text
without_v [] = []
without_v (c ∷ v) = if nat_beq c b'v' then v else c ∷ v

-- `split(/[.-]/)`.
abbrev pub extend_part : ℕ → List Text → List Text
extend_part c [] = (c ∷ []) ∷ []
extend_part c (p ∷ parts) = (c ∷ p) ∷ parts

unfoldable pub split_parts : Text → List Text
split_parts [] = [] ∷ []
split_parts (c ∷ v) =
    let parts = split_parts v in
    if nat_beq c b'.' || nat_beq c b'-' then [] ∷ parts else extend_part c parts

abbrev pub is_digit : ℕ → Bool
is_digit c = leb b'0' c && leb c b'9'

-- The digits at the front; without any the source has no number, and takes 0.
unfoldable pub leading_number : ℕ → Text → ℕ
leading_number n [] = n
leading_number n (c ∷ p) =
    let rest = leading_number (n * 10 + (c - b'0')) p in if is_digit c then rest else n

unfoldable pub skip_space : Text → Text
skip_space [] = []
skip_space (c ∷ p) = let rest = skip_space p in if is_space c then rest else c ∷ p

unfoldable pub skip_plus : Text → Text
skip_plus [] = []
skip_plus (c ∷ p) = if nat_beq c b'+' then p else c ∷ p

-- `Number.parseInt(p, 10)`; a part has no minus sign.
unfoldable pub part_number : Text → ℕ
part_number p = leading_number 0 (skip_plus (skip_space p))

unfoldable pub parse_version : Text → List ℕ
parse_version v = map part_number (split_parts (without_v v))

-- The loop over the parts of both, a missing part read as 0.
unfoldable pub newer_parts : List ℕ → List ℕ → Bool
newer_parts [] [] = false
newer_parts (x ∷ xs) [] = let rest = newer_parts xs [] in if nat_beq x 0 then rest else true
newer_parts [] (y ∷ ys) = let rest = newer_parts [] ys in if nat_beq y 0 then rest else false
newer_parts (x ∷ xs) (y ∷ ys) =
    let rest = newer_parts xs ys in if nat_beq x y then rest else ltb y x

unfoldable pub is_newer : Text → Text → Bool
is_newer candidate current = newer_parts (parse_version candidate) (parse_version current)
