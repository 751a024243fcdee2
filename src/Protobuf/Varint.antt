-- ===== src/Protobuf/Varint.antt =====
-- Variable-length integers, and a writer of them.
use native.Mathlib.Numerals.{towards_suc}
use nats_explorer.Prelude.{
  ℕ, zero, suc, ◌+◌, ◌*◌, ◌/◌, ◌%◌, ◌^◌, ◌≤◌, ◌<◌, List, [], ◌∷◌, ◌++◌, false, ◌≡◌, refl, arith,
  if◌then◌else◌, ltb, length, inl, inr, Bool-cases, ap, ◌∙◌,
}
use nats_explorer.Protobuf.{ok, varint_from, varint}

-- The wire format of a number below 128 ^ (n + 1): seven bits a byte, the lowest first, the eighth bit
-- set on all but the last.
unfoldable pub encode_varint : ℕ → ℕ → List ℕ
encode_varint zero v = v ∷ []
encode_varint (suc n) v =
    let rest = encode_varint n (v / 128) in if ltb v 128 then v ∷ [] else (v % 128 + 128) ∷ rest

pow_add_7 : (shift : ℕ) → 2 ^ (shift + 7) ≡ 128 * 2 ^ shift
pow_add_7 shift = simp towards_suc (omega arith)

div-lt-pow : (v n : ℕ) → v < 128 ^ suc n → v / 128 < 128 ^ n
div-lt-pow v n h = omega (arith, h)

-- The value of the last group and of the groups above it.
group_value : (v result p q : ℕ) → q ≡ 128 * p → result + v % 128 * p + v / 128 * q ≡ result + v * p
group_value v result p q e =
    let parts : v ≡ 128 * (v / 128) + v % 128 = omega arith in
    let scaled : v * p ≡ (128 * (v / 128) + v % 128) * p = ap (λ (t : ℕ). t * p) parts in
    rw e (grind (arith, scaled))

varint_from-last :
    (v result shift : ℕ) (rest : List ℕ)
    → v < 128
    → varint_from result shift (v ∷ rest) ≡ ok (result + v * 2 ^ shift, rest)
unfolding varint_from
varint_from-last v result shift rest h = ground arith

varint_from-group :
    (v result shift : ℕ) (buf : List ℕ)
    → shift + 14 ≤ 77
    → varint_from result shift ((v % 128 + 128) ∷ buf)
      ≡ varint_from (result + v % 128 * 2 ^ shift) (shift + 7) buf
unfolding varint_from
varint_from-group v result shift buf h =
    let high : ltb (v % 128 + 128) 128 ≡ false = ground arith in
    let low : ltb 70 (shift + 7) ≡ false = ground arith in
    let same : (v % 128 + 128) % 128 ≡ v % 128 = omega arith in rw (high, low, same) refl

varint_from-encode_varint :
    (n v result shift : ℕ) (rest : List ℕ)
    → v < 128 ^ suc n
    → shift + 7 * suc n ≤ 77
    → varint_from result shift (encode_varint n v ++ rest) ≡ ok (result + v * 2 ^ shift, rest)
unfolding encode_varint
varint_from-encode_varint zero v result shift rest h k =
    varint_from-last v result shift rest (omega (arith, h))
varint_from-encode_varint (suc n) v result shift rest h k = elim (Bool-cases (ltb v 128)) [
  | inl e ↦ rw e (varint_from-last v result shift rest (ground (arith, e)))
  | inr e ↦ rw e (
      varint_from-group v result shift (encode_varint n (v / 128) ++ rest) (omega (arith, k))
      ∙ varint_from-encode_varint n (v / 128) (result + v % 128 * 2 ^ shift) (shift + 7) rest
          (div-lt-pow v (suc n) h) (omega (arith, k))
      ∙ ap (λ (t : ℕ). ok (t, rest))
          (group_value v result (2 ^ shift) (2 ^ (shift + 7)) (pow_add_7 shift)))
]

-- Whatever follows, the reader takes a number below 128 ^ (n + 1) back from its groups, up to the eleven
-- that it accepts.
pub varint-encode_varint :
    (n v : ℕ) (rest : List ℕ)
    → n ≤ 10
    → v < 128 ^ suc n
    → varint (encode_varint n v ++ rest) ≡ ok (v, rest)
unfolding varint
varint-encode_varint n v rest h k =
    varint_from-encode_varint n v 0 0 rest k (omega (arith, h))
    ∙ ap (λ (t : ℕ). ok (t, rest)) (omega arith)

-- What the reader takes is shorter, and the value fits eleven groups of seven bits.
varint_from_lem :
    (result shift : ℕ) (buf : List ℕ) (v : ℕ) (rest : List ℕ)
    → varint_from result shift buf ≡ ok (v, rest)
    → length rest < length buf
unfolding varint_from
varint_from_lem result shift [] v rest e = cc
varint_from_lem result shift (b ∷ buf) v rest e =
    ground (arith, varint_from_lem (result + b % 128 * 2 ^ shift) (shift + 7) buf v rest)

length-varint :
    (buf : List ℕ) (v : ℕ) (rest : List ℕ) → varint buf ≡ ok (v, rest) → length rest < length buf
unfolding varint
length-varint buf v rest e = varint_from_lem 0 0 buf v rest e
