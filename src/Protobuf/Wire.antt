-- ===== src/Protobuf/Wire.antt =====
-- The format of the wire: a writer, and one field of it read.
use nats_explorer.Prelude.{
  ℕ, zero, suc, ◌+◌, ◌*◌, ◌/◌, ◌%◌, ◌^◌, ◌≤◌, ◌<◌, List, [], ◌∷◌, ◌++◌, false, Option,
  if◌then◌else◌, ◌≡◌, refl, arith, ltb, nat_beq, length, append_assoc, take, drop, ap,
  length-append,
}
use nats_explorer.Messages.{decimal}
use nats_explorer.Protobuf.{
  ok, text, whole_number, ◌>>=◌, varint, bytes, Platform, RawValue, number, RawMessage,
  length_delimited, read_value, read_field,
}
use nats_explorer.Protobuf.Varint.{encode_varint, varint-encode_varint}

-- What a writer puts into a message: a number, or bytes with their length.
pub data Item : Type 0 where
  integer : (key v : ℕ) → Item
  delimited : (key : ℕ) → (bs : List ℕ) → Item

-- The format of the wire; ten groups hold the 64 bits of a number.
unfoldable pub encode_item : Item → List ℕ
encode_item (integer key v) = encode_varint 9 (key * 8 + 0) ++ encode_varint 9 v
encode_item (delimited key bs) =
    encode_varint 9 (key * 8 + 2) ++ (encode_varint 9 (length bs) ++ bs)

unfoldable pub encode : List Item → List ℕ
encode [] = []
encode (i ∷ items) = encode_item i ++ encode items

-- A field number is positive, field numbers and lengths are exact as floating-point numbers, and a value
-- fits 64 bits.
abbrev pub IsItem : Item → Type 0
IsItem (integer key v) = (1 ≤ key) × (key < 2 ^ 53) × (v < 2 ^ 64)
IsItem (delimited key bs) = (1 ≤ key) × (key < 2 ^ 53) × (length bs < 2 ^ 53)

abbrev pub key_of : Item → ℕ
key_of (integer key v) = key
key_of (delimited key bs) = key

abbrev pub value_of : Platform → (List ℕ → Option RawMessage) → Item → RawValue
value_of platform inner (integer key v) = if ltb v (2 ^ 53) then number v else text (decimal v)
value_of platform inner (delimited key bs) = length_delimited platform inner bs

take-length : (bs rest : List ℕ) → take (length bs) (bs ++ rest) ≡ bs
take-length [] rest = refl
take-length (b ∷ bs) rest = ap (◌∷◌ b) (take-length bs rest)

drop-length : (bs rest : List ℕ) → drop (length bs) (bs ++ rest) ≡ rest
drop-length [] rest = refl
drop-length (b ∷ bs) rest = drop-length bs rest

bytes-length : (bs rest : List ℕ) → bytes (length bs) (bs ++ rest) ≡ ok (bs, rest)
unfolding bytes
bytes-length bs rest =
    let enough : ltb (length (bs ++ rest)) (length bs) ≡ false =
      ground (arith, length-append bs rest) in
    rw (enough, take-length bs rest, drop-length bs rest) refl

varint-64 : (v : ℕ) (rest : List ℕ) → v < 2 ^ 64 → varint (encode_varint 9 v ++ rest) ≡ ok (v, rest)
varint-64 v rest h = varint-encode_varint 9 v rest (omega arith) (omega (arith, h))

-- The key of a field is taken apart again.
read_field-key :
    (platform : Platform) (inner : List ℕ → Option RawMessage) (key wire : ℕ) (buf : List ℕ)
    → ((n : ℕ) → n < 2 ^ 53 → platform.to_number n ≡ n)
    → 1 ≤ key
    → wire < 8
    → key < 2 ^ 53
    → read_field platform inner (encode_varint 9 (key * 8 + wire) ++ buf)
      ≡ (read_value platform inner wire buf >>= λ r. ok (key, r.0, r.1))
unfolding read_field
read_field-key platform inner key wire buf exact h w k =
    let number_part : (key * 8 + wire) / 8 ≡ key = omega (arith, w) in
    let wire_part : (key * 8 + wire) % 8 ≡ wire = omega (arith, w) in
    let positive : nat_beq key 0 ≡ false = ground (arith, h) in
    rw
      (
        varint-64 (key * 8 + wire) buf (omega (arith, k, w)),
        number_part,
        wire_part,
        exact key k,
        positive,
      )
      refl

whole_number_lem :
    (v : ℕ) → whole_number v ≡ (if ltb v (2 ^ 53) then number v else text (decimal v))
unfolding whole_number
whole_number_lem v = ground arith

read_value-integer :
    (platform : Platform) (inner : List ℕ → Option RawMessage) (v : ℕ) (rest : List ℕ)
    → v < 2 ^ 64
    → read_value platform inner 0 (encode_varint 9 v ++ rest)
      ≡ ok ((if ltb v (2 ^ 53) then number v else text (decimal v)), rest)
unfolding read_value
read_value-integer platform inner v rest h =
    rw (varint-64 v rest h) (ap (λ x. ok (x, rest)) (whole_number_lem v))

read_value-delimited :
    (platform : Platform) (inner : List ℕ → Option RawMessage) (bs rest : List ℕ)
    → ((n : ℕ) → n < 2 ^ 53 → platform.to_number n ≡ n)
    → length bs < 2 ^ 53
    → read_value platform inner 2 (encode_varint 9 (length bs) ++ (bs ++ rest))
      ≡ ok (length_delimited platform inner bs, rest)
unfolding read_value
read_value-delimited platform inner bs rest exact h =
    rw (varint-64 (length bs) (bs ++ rest) (omega (arith, h)))
      (rw (exact (length bs) h, bytes-length bs rest) refl)

pub read_field-encode_item :
    (platform : Platform) (inner : List ℕ → Option RawMessage) (i : Item) (rest : List ℕ)
    → ((n : ℕ) → n < 2 ^ 53 → platform.to_number n ≡ n)
    → IsItem i
    → read_field platform inner (encode_item i ++ rest)
      ≡ ok (key_of i, value_of platform inner i, rest)
unfolding encode_item
read_field-encode_item platform inner (integer key v) rest exact h =
    rw
      (
        append_assoc (encode_varint 9 (key * 8 + 0)) (encode_varint 9 v) rest,
        read_field-key platform inner key 0 (encode_varint 9 v ++ rest) exact h.0 (omega arith) h.1,
        read_value-integer platform inner v rest h.2,
      )
      refl
read_field-encode_item platform inner (delimited key bs) rest exact h =
    rw
      (
        append_assoc (encode_varint 9 (key * 8 + 2)) (encode_varint 9 (length bs) ++ bs) rest,
        append_assoc (encode_varint 9 (length bs)) bs rest,
        read_field-key platform inner key 2 (encode_varint 9 (length bs) ++ (bs ++ rest)) exact h.0
            (omega arith) h.1,
        read_value-delimited platform inner bs rest exact h.2,
      )
      refl

length-encode_varint : (n v : ℕ) → 1 ≤ length (encode_varint n v)
unfolding encode_varint
length-encode_varint zero v = omega arith
length-encode_varint (suc n) v = ground arith

length-encode_item : (i : Item) → 1 ≤ length (encode_item i)
unfolding encode_item
length-encode_item (integer key v) = omega (
  arith,
  length-append (encode_varint 9 (key * 8 + 0)) (encode_varint 9 v),
  length-encode_varint 9 (key * 8 + 0),
)
length-encode_item (delimited key bs) = omega (
  arith,
  length-append (encode_varint 9 (key * 8 + 2)) (encode_varint 9 (length bs) ++ bs),
  length-encode_varint 9 (key * 8 + 2),
)

pub length-encode : (items : List Item) → length items ≤ length (encode items)
unfolding encode
length-encode [] = omega arith
length-encode (i ∷ items) =
    omega (
      arith,
      length-append (encode_item i) (encode items),
      length-encode_item i,
      length-encode items,
    )
