-- ===== src/Protobuf/Progress.antt =====
-- The fuel of the loop over the fields.
use nats_explorer.Prelude.{
  ℕ, zero, suc, ◌+◌, ◌-◌, ◌*◌, ◌^◌, ◌/◌, ◌%◌, ◌≤◌, ◌≢◌, List, [], ◌∷◌, Bool, true, false, Option,
  ◌≡◌, refl, arith, if◌then◌else◌, ltb, nat_beq, length, length-drop,
}
use nats_explorer.Protobuf.{
  Result, ok, err, stuck, varint, varint_from, bytes, Platform, RawValue, RawMessage, read_value,
  read_field, parse_loop, parse, add, empty, ◌>>=◌,
}

-- What a step on a buffer may do: fail, but not for fuel, or leave at most `n` bytes.
abbrev pub Leaves : {A : Type 0} → (A → List ℕ) → ℕ → Result A → Type 0
Leaves rest n (ok a) = length (rest a) ≤ n
Leaves rest n (err e) = e ≢ stuck

if-Leaves :
    {A : Type 0} (rest : A → List ℕ) (n : ℕ) (test : Bool) (r s : Result A)
    → (test ≡ true → Leaves rest n r)
    → (test ≡ false → Leaves rest n s)
    → Leaves rest n (if test then r else s)
if-Leaves rest n true r s h k = h refl
if-Leaves rest n false r s h k = k refl

bind-Leaves :
    {A B : Type 0} (rest : A → List ℕ) (rest' : B → List ℕ) (n n' : ℕ) (m : Result A)
    (f : A → Result B)
    → Leaves rest n m
    → ((a : A) → length (rest a) ≤ n → Leaves rest' n' (f a))
    → Leaves rest' n' (m >>= f)
bind-Leaves rest rest' n n' (ok a) f h k = k a h
bind-Leaves rest rest' n n' (err e) f h k = h

weaken-Leaves :
    {A : Type 0} (rest : A → List ℕ) (n n' : ℕ) (m : Result A)
    → n ≤ n'
    → Leaves rest n m
    → Leaves rest n' m
weaken-Leaves rest n n' (ok a) k h = omega (arith, h, k)
weaken-Leaves rest n n' (err e) k h = h

abbrev after : ℕ × List ℕ → List ℕ
after r = r.1

varint_from-Leaves :
    (result shift : ℕ) (buf : List ℕ) → Leaves after (length buf - 1) (varint_from result shift buf)
unfolding varint_from
varint_from-Leaves result shift [] = λ e. absurd (cc (e))
varint_from-Leaves result shift (b ∷ buf) =
    if-Leaves after _ (ltb b 128) _ _ (λ h. omega arith)
      (λ h.
        if-Leaves after _ (ltb 70 (shift + 7)) _ _ (λ k e. absurd (cc (e)))
          (λ k.
            weaken-Leaves after (length buf - 1) _ _ (omega arith)
              (varint_from-Leaves (result + b % 128 * 2 ^ shift) (shift + 7) buf)))

varint-Leaves : (buf : List ℕ) → Leaves after (length buf - 1) (varint buf)
unfolding varint
varint-Leaves buf = varint_from-Leaves 0 0 buf

abbrev unread : List ℕ × List ℕ → List ℕ
unread r = r.1

bytes-Leaves : (n : ℕ) (buf : List ℕ) → Leaves unread (length buf) (bytes n buf)
unfolding bytes
bytes-Leaves n buf =
    if-Leaves unread _ (ltb (length buf) n) _ _ (λ h e. absurd (cc (e)))
      (λ h. omega (arith, length-drop n buf))

abbrev following : RawValue × List ℕ → List ℕ
following r = r.1

read_value-Leaves :
    (platform : Platform) (inner : List ℕ → Option RawMessage) (wire : ℕ) (buf : List ℕ)
    → Leaves following (length buf) (read_value platform inner wire buf)
unfolding read_value
read_value-Leaves platform inner wire buf =
    if-Leaves following _ (nat_beq wire 0) _ _
      (λ _.
        bind-Leaves after following _ _ (varint buf) _ (varint-Leaves buf)
          (λ r h. omega (arith, h)))
      (λ _.
        if-Leaves following _ (nat_beq wire 1) _ _
          (λ _. bind-Leaves unread following _ _ (bytes 8 buf) _ (bytes-Leaves 8 buf) (λ r h. h))
          (λ _.
            if-Leaves following _ (nat_beq wire 2) _ _
              (λ _. bind-Leaves after following _ _ (varint buf) _ (varint-Leaves buf) (λ n h.
                bind-Leaves unread following _ _ (bytes (platform.to_number n.0) n.1) _
                  (bytes-Leaves (platform.to_number n.0) n.1) (λ r k. omega (arith, h, k))))
              (λ _.
                if-Leaves following _ (nat_beq wire 5) _ _
                  (λ _.
                    bind-Leaves unread following _ _ (bytes 4 buf) _ (bytes-Leaves 4 buf)
                      (λ r h. h))
                  (λ _ e. absurd (cc (e))))))

abbrev left : ℕ × RawValue × List ℕ → List ℕ
left r = r.2

read_field-Leaves :
    (platform : Platform) (inner : List ℕ → Option RawMessage) (buf : List ℕ)
    → Leaves left (length buf - 1) (read_field platform inner buf)
unfolding read_field
read_field-Leaves platform inner buf =
    bind-Leaves after left _ _ (varint buf) _ (varint-Leaves buf) (λ key h.
      if-Leaves left _ (nat_beq (platform.to_number (key.0 / 8)) 0) _ _ (λ _ e. absurd (cc (e)))
        (λ _.
          bind-Leaves following left _ _ (read_value platform inner (key.0 % 8) key.1) _
            (read_value-Leaves platform inner (key.0 % 8) key.1) (λ r k. omega (arith, h, k))))

abbrev nothing : RawMessage → List ℕ
nothing msg = []

parse_loop-Leaves :
    (platform : Platform) (inner : List ℕ → Option RawMessage) (fuel : ℕ) (buf : List ℕ)
    (out : RawMessage)
    → length buf ≤ fuel
    → Leaves nothing 0 (parse_loop platform inner fuel buf out)
unfolding parse_loop
parse_loop-Leaves platform inner zero [] out h = omega arith
parse_loop-Leaves platform inner (suc fuel) [] out h = omega arith
parse_loop-Leaves platform inner zero (b ∷ buf) out h = absurd (omega (arith, h))
parse_loop-Leaves platform inner (suc fuel) (b ∷ buf) out h =
    bind-Leaves left nothing _ _ (read_field platform inner (b ∷ buf)) _
      (read_field-Leaves platform inner (b ∷ buf))
      (λ r k. parse_loop-Leaves platform inner fuel r.2 (add r.0 r.1 out) (omega (arith, h, k)))

not_stuck : (r : Result RawMessage) → Leaves nothing 0 r → r ≢ err stuck
not_stuck (ok msg) h e = absurd (cc (e))
not_stuck (err e) h k = h (cc (k))

-- Whatever the bytes and whatever is made of nested ones, reading a message ends: with a message, or with
-- one of the errors that the reader throws, never because the loop ran out of rounds.
pub parse-ends :
    (platform : Platform) (inner : List ℕ → Option RawMessage) (buf : List ℕ)
    → parse platform inner buf ≢ err stuck
unfolding parse
parse-ends platform inner buf =
    not_stuck _ (parse_loop-Leaves platform inner (length buf) buf empty (omega arith))
