-- ===== src/Protobuf/Fields.antt =====
-- The fields of a message put together from numbers and bytes.
use nats_explorer.Prelude.{
  ℕ, zero, suc, ◌^◌, ◌≤◌, ◌<◌, List, [], ◌∷◌, ◌++◌, true, Option, none, some, Text, Bool-cases, inl,
  inr, if◌then◌else◌, ◌≡◌, refl, sym, arith, nat_beq, length, append_assoc, append-nil, All, ap,
  ◌∙◌,
}
use nats_explorer.Prelude.Tests.{nat_beq_iff}
use nats_explorer.Protobuf.Lookup.{
  value_at, packed, is_single, head_single, value_at-add-packed, value_at-add_other,
}
use nats_explorer.Protobuf.{
  Result, ok, err, text_or, nested_or_opaque, varint, varint_from, Platform, RawValue, RawMessage,
  empty, add, length_delimited, read_field, parse_loop, parse,
}
use nats_explorer.Protobuf.Wire.{
  Item, integer, delimited, encode_item, encode, IsItem, key_of, value_of, read_field-encode_item,
  length-encode,
}

-- The values that a writer put under a field number, in the order written.
abbrev pub values_of : Platform → (List ℕ → Option RawMessage) → ℕ → List Item → List RawValue
values_of platform inner key [] = []
values_of platform inner key (i ∷ items) =
    if nat_beq (key_of i) key
    then value_of platform inner i ∷ values_of platform inner key items
    else values_of platform inner key items

-- What a result has under a field number.
abbrev pub found : ℕ → Result RawMessage → Result (Option RawValue)
found key (ok msg) = ok (value_at key msg)
found key (err e) = err e

abbrev collected : Platform → (List ℕ → Option RawMessage) → List Item → RawMessage → RawMessage
collected platform inner [] out = out
collected platform inner (i ∷ items) out =
    collected platform inner items (add (key_of i) (value_of platform inner i) out)

parse_loop-read :
    (platform : Platform) (inner : List ℕ → Option RawMessage) (fuel key : ℕ) (v : RawValue)
    (buf rest : List ℕ) (out : RawMessage)
    → read_field platform inner buf ≡ ok (key, v, rest)
    → parse_loop platform inner (suc fuel) buf out
      ≡ parse_loop platform inner fuel rest (add key v out)
unfolding parse_loop
parse_loop-read platform inner fuel key v [] rest out h =
    absurd (unfold read_field varint varint_from in cc (h))
parse_loop-read platform inner fuel key v (b ∷ buf) rest out h = rw h refl

parse_loop-encode :
    (platform : Platform) (inner : List ℕ → Option RawMessage) (items : List Item) (fuel : ℕ)
    (out : RawMessage)
    → ((n : ℕ) → n < 2 ^ 53 → platform.to_number n ≡ n)
    → length items ≤ fuel
    → All IsItem items
    → parse_loop platform inner fuel (encode items) out ≡ ok (collected platform inner items out)
unfolding encode
parse_loop-encode platform inner [] zero out exact h w = unfold parse_loop in refl
parse_loop-encode platform inner [] (suc fuel) out exact h w = unfold parse_loop in refl
parse_loop-encode platform inner (i ∷ items) zero out exact h w = absurd (omega (arith, h))
parse_loop-encode platform inner (i ∷ items) (suc fuel) out exact h w =
    parse_loop-read platform inner fuel (key_of i) (value_of platform inner i)
      (encode_item i ++ encode items) (encode items) out
      (read_field-encode_item platform inner i (encode items) exact w.0)
    ∙ parse_loop-encode platform inner items fuel (add (key_of i) (value_of platform inner i) out)
        exact (omega (arith, h)) w.1

text_or-is_single :
    (s : Option Text) (v : RawValue) → is_single v ≡ true → is_single (text_or s v) ≡ true
text_or-is_single none v h = h
text_or-is_single (some s) v h = ground (arith, h)

nested-is_single : (m : Option RawMessage) (bs : List ℕ) → is_single (nested_or_opaque m bs) ≡ true
nested-is_single none bs = refl
nested-is_single (some m) bs = refl

length_delimited-is_single :
    (platform : Platform) (inner : List ℕ → Option RawMessage) (bs : List ℕ)
    → is_single (length_delimited platform inner bs) ≡ true
unfolding length_delimited
length_delimited-is_single platform inner [] = text_or-is_single (platform.decode_utf8 []) _ refl
length_delimited-is_single platform inner (b ∷ bs) =
    text_or-is_single (platform.decode_utf8 (b ∷ bs)) _ (nested-is_single (inner (b ∷ bs)) (b ∷ bs))

value_of-is_single :
    (platform : Platform) (inner : List ℕ → Option RawMessage) (i : Item)
    → is_single (value_of platform inner i) ≡ true
value_of-is_single platform inner (integer key v) = ground arith
value_of-is_single platform inner (delimited key bs) = length_delimited-is_single platform inner bs

head_single-append :
    (vs : List RawValue) (v : RawValue)
    → head_single vs ≡ true
    → is_single v ≡ true
    → head_single (vs ++ v ∷ []) ≡ true
head_single-append [] v h s = s
head_single-append (w ∷ vs) v h s = h

value_at-collected :
    (platform : Platform) (inner : List ℕ → Option RawMessage) (key : ℕ) (items : List Item)
    (vs : List RawValue) (out : RawMessage)
    → head_single vs ≡ true
    → value_at key out ≡ packed vs
    → value_at key (collected platform inner items out)
      ≡ packed (vs ++ values_of platform inner key items)
value_at-collected platform inner key [] vs out s h = h ∙ ap packed (sym (append-nil vs))
value_at-collected platform inner key (i ∷ items) vs out s h =
    let v = value_of platform inner i in
    let next = add (key_of i) v out in
    elim (Bool-cases (nat_beq (key_of i) key)) [
      | inl e ↦
          let same = (nat_beq_iff (key_of i) key).0 e in
          let here : value_at key next ≡ packed (vs ++ v ∷ []) =
            ap (λ k. value_at key (add k v out)) same ∙ value_at-add-packed key v vs out s h in
          rw e (
            value_at-collected platform inner key items (vs ++ v ∷ []) next
              (head_single-append vs v s (value_of-is_single platform inner i)) here
            ∙ ap packed (append_assoc vs (v ∷ []) (values_of platform inner key items)))
      | inr e ↦ rw e (
          value_at-collected platform inner key items vs next s
            (value_at-add_other key (key_of i) e v out ∙ h))
    ]

-- A message put together from numbers below 2 ^ 64 and bytes, each under a positive field number, is read
-- back field by field: what stands under a number is what was written under it, in the order written; one
-- value as itself and more as a list, a number as itself below 2 ^ 53 and as a text in decimal from there,
-- bytes as what is guessed of them. Conditions: field numbers and lengths are below 2 ^ 53, where `Number`
-- is exact.
pub parse-encode :
    (platform : Platform) (inner : List ℕ → Option RawMessage) (items : List Item) (key : ℕ)
    → ((n : ℕ) → n < 2 ^ 53 → platform.to_number n ≡ n)
    → All IsItem items
    → found key (parse platform inner (encode items))
      ≡ ok (packed (values_of platform inner key items))
unfolding parse
parse-encode platform inner items key exact w =
    ap (found key) (
      parse_loop-encode platform inner items (length (encode items)) empty exact
        (length-encode items) w)
    ∙ ap ok (value_at-collected platform inner key items [] empty refl refl)
