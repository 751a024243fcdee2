-- ===== src/Protobuf/Lookup.antt =====
-- The fields of a message by their numbers.
use nats_explorer.Prelude.{
  ℕ, List, [], ◌∷◌, ◌++◌, Bool, true, false, Option, none, some, if◌then◌else◌, nat_beq, ◌≡◌, refl,
  ap, ◌∙◌, inl, inr, Bool-cases, text_eq,
}
use nats_explorer.Prelude.Tests.{nat_beq_iff}
use nats_explorer.Protobuf.{
  RawValue, number, text, float, opaque, nested, many, RawValues, end, more, RawMessage, empty,
  field, push, joined, has_field, joined_field, listed_before, new_field, add,
}

-- `msg[key]`.
abbrev pub value_at : ℕ → RawMessage → Option RawValue
value_at key empty = none
value_at key (field k v msg) = if nat_beq k key then some v else value_at key msg

abbrev pub raw_values : List RawValue → RawValues
raw_values [] = end
raw_values (v ∷ vs) = more v (raw_values vs)

-- How values of one field are shown: none not at all, one as itself, more as a list.
abbrev pub packed : List RawValue → Option RawValue
packed [] = none
packed (v ∷ []) = some v
packed (v ∷ w ∷ vs) = some (many (raw_values (v ∷ w ∷ vs)))

abbrev extended : Option RawValue → RawValue → RawValue
extended none v = v
extended (some w) v = joined w v

value_at-found :
    (k : ℕ) (v : RawValue) (msg : RawMessage)
    → has_field k msg ≡ true
    → value_at k (joined_field k v msg) ≡ some (extended (value_at k msg) v)
value_at-found k v empty h = absurd (cc (h))
value_at-found k v (field l w msg) h = elim (Bool-cases (nat_beq l k)) [
  | inl e ↦ rw (e, e) refl
  | inr e ↦ rw (e, e) (value_at-found k v msg (rw e at h))
]

value_at-absent : (k : ℕ) (msg : RawMessage) → has_field k msg ≡ false → value_at k msg ≡ none
value_at-absent k empty h = refl
value_at-absent k (field l w msg) h = elim (Bool-cases (nat_beq l k)) [
  | inl e ↦ absurd (cc (rw e at h))
  | inr e ↦ rw e (value_at-absent k msg (rw e at h))
]

value_at-new :
    (k : ℕ) (v : RawValue) (msg : RawMessage)
    → has_field k msg ≡ false
    → value_at k (new_field k v msg) ≡ some v
value_at-new k v empty h = rw ((nat_beq_iff k k).1 refl) refl
value_at-new k v (field l w msg) h = elim (Bool-cases (nat_beq l k)) [
  | inl e ↦ absurd (cc (rw e at h))
  | inr e ↦ elim (Bool-cases (listed_before k l)) [
    | inl b ↦ rw (b, (nat_beq_iff k k).1 refl) refl
    | inr b ↦ rw (b, e) (value_at-new k v msg (rw e at h))
  ]
]

module _ (key k : ℕ) (other : nat_beq k key ≡ false) where
  value_at-joined_field :
      (v : RawValue) (msg : RawMessage) → value_at key (joined_field k v msg) ≡ value_at key msg
  value_at-joined_field v empty = refl
  value_at-joined_field v (field l w msg) = elim (Bool-cases (nat_beq l k)) [
    | inl e ↦
        let not_key : nat_beq l key ≡ false =
          ap (λ n. nat_beq n key) ((nat_beq_iff l k).0 e) ∙ other in
        rw e (rw not_key refl)
    | inr e ↦ rw e (ap (λ o. if nat_beq l key then some w else o) (value_at-joined_field v msg))
  ]

  value_at-new_field :
      (v : RawValue) (msg : RawMessage) → value_at key (new_field k v msg) ≡ value_at key msg
  value_at-new_field v empty = rw other refl
  value_at-new_field v (field l w msg) = elim (Bool-cases (listed_before k l)) [
    | inl b ↦ rw b (rw other refl)
    | inr b ↦ rw b (ap (λ o. if nat_beq l key then some w else o) (value_at-new_field v msg))
  ]

  -- A field with another number does not change what a number finds.
  pub value_at-add_other :
      (v : RawValue) (msg : RawMessage) → value_at key (add k v msg) ≡ value_at key msg
  unfolding add
  value_at-add_other v msg = elim (Bool-cases (has_field k msg)) [
    | inl e ↦ rw e (value_at-joined_field v msg)
    | inr e ↦ rw e (value_at-new_field v msg)
  ]

value_at-add :
    (k : ℕ) (v : RawValue) (msg : RawMessage)
    → value_at k (add k v msg) ≡ some (extended (value_at k msg) v)
unfolding add
value_at-add k v msg = elim (Bool-cases (has_field k msg)) [
  | inl e ↦ rw e (value_at-found k v msg e)
  | inr e ↦ rw e (value_at-new k v msg e ∙ rw (value_at-absent k msg e) refl)
]

-- A value of one occurrence of a field, which is not a list.
abbrev pub is_single : RawValue → Bool
is_single (number n) = true
is_single (text s) = true
is_single (float bs) = true
is_single (opaque bs) = true
is_single (nested msg) = true
is_single (many vs) = false

-- The first of some values is no list.
abbrev pub head_single : List RawValue → Bool
head_single [] = true
head_single (v ∷ vs) = is_single v

joined-single : (w v : RawValue) → is_single w ≡ true → joined w v ≡ many (more w (more v end))
joined-single (number n) v h = refl
joined-single (text s) v h = refl
joined-single (float bs) v h = refl
joined-single (opaque bs) v h = refl
joined-single (nested msg) v h = refl
joined-single (many vs) v h = absurd (cc (h))

push-raw_values :
    (vs : List RawValue) (v : RawValue) → push (raw_values vs) v ≡ raw_values (vs ++ v ∷ [])
push-raw_values [] v = refl
push-raw_values (w ∷ vs) v = ap (more w) (push-raw_values vs v)

-- Where the values of a field are packed, one more is packed behind them.
pub value_at-add-packed :
    (k : ℕ) (v : RawValue) (vs : List RawValue) (msg : RawMessage)
    → head_single vs ≡ true
    → value_at k msg ≡ packed vs
    → value_at k (add k v msg) ≡ packed (vs ++ v ∷ [])
value_at-add-packed k v [] msg s h = value_at-add k v msg ∙ rw h refl
value_at-add-packed k v (w ∷ []) msg s h =
    value_at-add k v msg ∙ rw h (ap some (joined-single w v s))
value_at-add-packed k v (w ∷ x ∷ vs) msg s h =
    value_at-add k v msg ∙ rw h (ap (λ r. some (many (more w (more x r)))) (push-raw_values vs v))
