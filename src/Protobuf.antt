-- ===== src/Protobuf.antt =====
-- client/src/lib/protoRaw.ts: reading a protobuf message without its schema. A reader is the list of the
-- bytes that it has not read. What the browser does with bytes, decoding UTF-8 and reading floating-point
-- numbers, is a parameter, and so is the rounding of a large integer to a floating-point number. A message
-- is an object of the source, with its fields in the order in which an object lists them.
pub mod Varint
pub mod Wire
pub mod Lookup
pub mod Fields
pub mod Progress
use nats_explorer.Prelude.{
  ℕ, zero, suc, ◌+◌, ◌-◌, ◌*◌, ◌/◌, ◌%◌, ◌^◌, Text, List, [], ◌∷◌, ◌++◌, Bool, true, false, not,
  ◌&&◌, ◌||◌, Option, none, some, if◌then◌else◌, ltb, leb, nat_beq, length, take, drop, any,
}
use nats_explorer.Messages.{decimal}
use nats_explorer.Subjects.Match.{is_empty}

-- What the reader throws. `stuck` is none of the source's: the loop ran out of fuel.
pub data Error : Type 0 where
  truncated_varint varint_too_long truncated_field field_zero stuck : Error
  unsupported_wire : (wire : ℕ) → Error

pub data Result {ℓ} (A : Type ℓ) : Type ℓ where
  ok : A → Result A
  err : Error → Result A

infixl 5 ◌>>=◌
abbrev pub ◌>>=◌ {ℓ κ} : {A : Type ℓ} {B : Type κ} → Result A → (A → Result B) → Result B
ok a >>= f = f a
err e >>= f = err e

-- `Reader.varint` from the value and the shift so far. The groups do not overlap, so `|` adds; `b & 0x7f`
-- is `b % 128`, and the eighth bit of a byte is set from 128 on.
unfoldable pub varint_from : ℕ → ℕ → List ℕ → Result (ℕ × List ℕ)
varint_from result shift [] = err truncated_varint
varint_from result shift (b ∷ buf) =
    let next = result + b % 128 * 2 ^ shift in
    let rest = varint_from next (shift + 7) buf in
    if ltb b 128 then ok (next, buf) else if ltb 70 (shift + 7) then err varint_too_long else rest

unfoldable pub varint : List ℕ → Result (ℕ × List ℕ)
varint buf = varint_from 0 0 buf

-- `Reader.bytes`.
unfoldable pub bytes : ℕ → List ℕ → Result (List ℕ × List ℕ)
bytes n buf = if ltb (length buf) n then err truncated_field else ok (take n buf, drop n buf)

-- A value: an integer, a text, a floating-point number as its bytes, bytes shown as hex, a nested message,
-- or the values of a field that occurs again.
mutual
  pub data RawValue : Type 0 where
    number : ℕ → RawValue
    text : Text → RawValue
    float : List ℕ → RawValue
    opaque : List ℕ → RawValue
    nested : RawMessage → RawValue
    many : RawValues → RawValue

  pub data RawValues : Type 0 where
    end : RawValues
    more : RawValue → RawValues → RawValues

  pub data RawMessage : Type 0 where
    empty : RawMessage
    field : (key : ℕ) → RawValue → RawMessage → RawMessage

-- What the browser gives: a decoder that is none where it throws, and `readableFloat` of the number that
-- eight or four bytes stand for. `to_number` is `Number` of an integer, the nearest floating-point number.
pub record Platform : Type 0 where
  pub to_number : ℕ → ℕ
  pub decode_utf8 : List ℕ → Option Text
  pub readable_double : List ℕ → Bool
  pub readable_single : List ℕ → Bool

abbrev pub is_control : ℕ → Bool
is_control c =
    nat_beq c 127 || (ltb c 32 && not (nat_beq c 9) && not (nat_beq c 10) && not (nat_beq c 13))

unfoldable pub printable : Text → Bool
printable s = not (any is_control s)

-- `number`: a value above MAX_SAFE_INTEGER is shown as a text.
unfoldable pub whole_number : ℕ → RawValue
unfolding decimal
whole_number v = if leb v 9007199254740991 then number v else text (decimal v)

-- `getBigUint64(0, true)` and `getUint32(0, true)`.
unfoldable pub little_endian : List ℕ → ℕ
little_endian [] = 0
little_endian (b ∷ bs) = b + 256 * little_endian bs

abbrev pub nested_or_opaque : Option RawMessage → List ℕ → RawValue
nested_or_opaque none bs = opaque bs
nested_or_opaque (some msg) bs = nested msg

abbrev pub text_or : Option Text → RawValue → RawValue
text_or none v = v
text_or (some s) v = if not (is_empty s) && printable s then text s else v

-- `inner` is `tryParse` one level deeper, none past the twelfth level. No bytes are shown as the empty
-- text.
unfoldable pub length_delimited : Platform → (List ℕ → Option RawMessage) → List ℕ → RawValue
unfolding printable
length_delimited platform inner bs =
    text_or (platform.decode_utf8 bs)
      (if is_empty bs then text [] else nested_or_opaque (inner bs) bs)

-- `add`: a field that is there already becomes a list.
abbrev pub push : RawValues → RawValue → RawValues
push end v = more v end
push (more w ws) v = more w (push ws v)

abbrev pub joined : RawValue → RawValue → RawValue
joined (many ws) v = many (push ws v)
joined (number n) v = many (more (number n) (more v end))
joined (text s) v = many (more (text s) (more v end))
joined (float bs) v = many (more (float bs) (more v end))
joined (opaque bs) v = many (more (opaque bs) (more v end))
joined (nested msg) v = many (more (nested msg) (more v end))

abbrev pub has_field : ℕ → RawMessage → Bool
has_field key empty = false
has_field key (field k w msg) = nat_beq k key || has_field key msg

abbrev pub joined_field : ℕ → RawValue → RawMessage → RawMessage
joined_field key v empty = empty
joined_field key v (field k w msg) =
    if nat_beq k key then field k (joined w v) msg else field k w (joined_field key v msg)

-- An object lists the keys that are array indices first, in ascending order, and then the others in the
-- order in which they came.
abbrev pub is_index : ℕ → Bool
is_index key = ltb key 4294967295

abbrev pub listed_before : ℕ → ℕ → Bool
listed_before key k = is_index key && (not (is_index k) || ltb key k)

abbrev pub new_field : ℕ → RawValue → RawMessage → RawMessage
new_field key v empty = field key v empty
new_field key v (field k w msg) =
    if listed_before key k then field key v (field k w msg) else field k w (new_field key v msg)

unfoldable pub add : ℕ → RawValue → RawMessage → RawMessage
add key v msg = if has_field key msg then joined_field key v msg else new_field key v msg

-- One field after its key: the value and what is left.
unfoldable pub read_value :
    Platform → (List ℕ → Option RawMessage) → ℕ → List ℕ → Result (RawValue × List ℕ)
unfolding length_delimited little_endian whole_number
read_value platform inner wire buf =
    if nat_beq wire 0
    then (varint buf >>= λ r. ok (whole_number r.0, r.1))
    else if nat_beq wire 1
    then (bytes 8 buf >>= λ r. ok (
      (if platform.readable_double r.0 then float r.0 else whole_number (little_endian r.0)),
      r.1,
    ))
    else if nat_beq wire 2
    then (varint buf >>= λ n.
        bytes (platform.to_number n.0) n.1 >>= λ r. ok (length_delimited platform inner r.0, r.1))
    else if nat_beq wire 5
    then (bytes 4 buf >>= λ r.
        ok ((if platform.readable_single r.0 then float r.0 else number (little_endian r.0)), r.1))
    else err (unsupported_wire wire)

-- A key is a field number and a wire type: `Number(key >> 3n)` and `key & 7n`.
unfoldable pub read_field :
    Platform → (List ℕ → Option RawMessage) → List ℕ → Result (ℕ × RawValue × List ℕ)
read_field platform inner buf = varint buf >>= λ key.
    let number_of = platform.to_number (key.0 / 8) in
    if nat_beq number_of 0
    then err field_zero
    else (read_value platform inner (key.0 % 8) key.1 >>= λ r. ok (number_of, r.0, r.1))

-- The loop of `parse`, on fuel: a round for every field.
unfoldable pub parse_loop :
    Platform → (List ℕ → Option RawMessage) → ℕ → List ℕ → RawMessage → Result RawMessage
parse_loop platform inner fuel [] out = ok out
parse_loop platform inner zero (b ∷ buf) out = err stuck
parse_loop platform inner (suc fuel) (b ∷ buf) out = read_field platform inner (b ∷ buf) >>= λ r.
    parse_loop platform inner fuel r.2 (add r.0 r.1 out)

-- Every round reads a byte at least, so the number of bytes is enough fuel.
unfoldable pub parse : Platform → (List ℕ → Option RawMessage) → List ℕ → Result RawMessage
parse platform inner buf = parse_loop platform inner (length buf) buf empty

abbrev pub some_fields : Result RawMessage → Option RawMessage
some_fields (err e) = none
some_fields (ok empty) = none
some_fields (ok (field k v msg)) = some (field k v msg)

-- `tryParse`, with the number of levels that are left below this one.
unfoldable pub try_parse : Platform → ℕ → List ℕ → Option RawMessage
try_parse platform zero buf = some_fields (parse platform (λ bs. none) buf)
try_parse platform (suc levels) buf = some_fields (parse platform (try_parse platform levels) buf)

unfoldable pub decode_raw : Platform → List ℕ → Option RawMessage
decode_raw platform buf = try_parse platform 12 buf

unfoldable mutual
  pub count_value : RawValue → ℕ
  count_value (number n) = 1
  count_value (text s) = 1
  count_value (float bs) = 1
  count_value (opaque bs) = 1
  count_value (nested msg) = suc (count_fields msg)
  count_value (many vs) = count_values vs

  pub count_values : RawValues → ℕ
  count_values end = 0
  count_values (more v vs) = count_value v + count_values vs

  pub count_fields : RawMessage → ℕ
  count_fields empty = 0
  count_fields (field k v msg) = count_value v + count_fields msg
