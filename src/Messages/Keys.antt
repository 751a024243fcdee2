-- ===== src/Messages/Keys.antt =====
-- `messageKey` as the identity of a message.
use nats_explorer.Prelude.{
  false, ℕ, zero, suc, ◌+◌, ◌*◌, ◌-◌, ◌/◌, ◌%◌, ◌≤◌, Text, [], ◌∷◌, ◌++◌, Option, none, some, ◌≡◌,
  ◌≢◌, refl, ap, sym, ◌∙◌, arith, All, nat_beq, inl, inr, Bool-cases, append_assoc,
}
use nats_explorer.Messages.{
  NatsMessage, or_default, decimal, decimal_digits, optional_decimal, message_key,
}

-- The value of digits, after those that stand for `n`.
unfoldable pub digits_value : ℕ → Text → ℕ
digits_value n [] = n
digits_value n (d ∷ ds) = digits_value (n * 10 + (d - 48)) ds

digits_value-digits :
    (fuel n : ℕ) (out : Text)
    → n ≤ fuel
    → digits_value 0 (decimal_digits fuel n out) ≡ digits_value n out
unfolding decimal_digits digits_value
digits_value-digits zero n out h =
    let none_left : 0 ≡ n = omega (arith, h) in ap (λ k. digits_value k out) none_left
digits_value-digits (suc fuel) n out h = elim (Bool-cases (nat_beq n 0)) [
  | inl e ↦ let nothing : 0 ≡ n = ground (arith, e) in rw e (ap (λ k. digits_value k out) nothing)
  | inr e ↦
      let some_left : 1 ≤ n = ground (arith, e) in
      let whole : (n / 10) * 10 + (48 + n % 10 - 48) ≡ n = omega arith in
      rw e (
        digits_value-digits fuel (n / 10) ((48 + n % 10) ∷ out) (omega (arith, h, some_left))
        ∙ ap (λ k. digits_value k out) whole)
]

pub digits_value-decimal : (n : ℕ) → digits_value 0 (decimal n) ≡ n
unfolding decimal digits_value
digits_value-decimal n = elim (Bool-cases (nat_beq n 0)) [
  | inl e ↦ let nothing : 0 ≡ n = ground (arith, e) in rw e nothing
  | inr e ↦ rw e (digits_value-digits n n [] (omega arith))
]

decimal-injective : (n m : ℕ) → decimal n ≡ decimal m → n ≡ m
decimal-injective n m e =
    sym (digits_value-decimal n) ∙ ap (digits_value 0) e ∙ digits_value-decimal m

-- A text without colons.
abbrev pub HasNoColon : Text → Type 0
HasNoColon t = All (λ c. c ≢ b':') t

decimal_digits-HasNoColon :
    (fuel n : ℕ) (out : Text) → HasNoColon out → HasNoColon (decimal_digits fuel n out)
unfolding decimal_digits
decimal_digits-HasNoColon zero n out h = h
decimal_digits-HasNoColon (suc fuel) n out h = elim (Bool-cases (nat_beq n 0)) [
  | inl e ↦ rw e h
  | inr e ↦
      let digit : b'0' + n % 10 ≢ b':' = (λ k. absurd (omega (arith, k))) in
      rw e (decimal_digits-HasNoColon fuel (n / 10) ((b'0' + n % 10) ∷ out) (digit, h))
]

decimal-HasNoColon : (n : ℕ) → HasNoColon (decimal n)
unfolding decimal
decimal-HasNoColon n = elim (Bool-cases (nat_beq n 0)) [
  | inl e ↦ rw e ((λ k. absurd (omega (arith, k))), tt)
  | inr e ↦ rw e (decimal_digits-HasNoColon n n [] tt)
]

optional_decimal-HasNoColon : (o : Option ℕ) → HasNoColon (optional_decimal o)
optional_decimal-HasNoColon none = tt
optional_decimal-HasNoColon (some n) = decimal-HasNoColon n

-- What stands before the first colon, and what follows it.
first_colon :
    (a b x y : Text)
    → HasNoColon a
    → HasNoColon b
    → a ++ (b':' ∷ x) ≡ b ++ (b':' ∷ y)
    → (a ≡ b) × (x ≡ y)
first_colon [] [] x y ha hb e = (refl, cc (e))
first_colon [] (d ∷ b) x y ha hb e = absurd (hb.0 (cc (e)))
first_colon (c ∷ a) [] x y ha hb e = absurd (ha.0 (cc (e)))
first_colon (c ∷ a) (d ∷ b) x y ha hb e =
    let rest : a ++ (b':' ∷ x) ≡ b ++ (b':' ∷ y) = cc (e) in
    let t = first_colon a b x y ha.1 hb.1 rest in
    let heads : c ≡ d = cc (e) in (cc (heads, t.0), t.1)

colon_inside : (a x : Text) → ¬ HasNoColon (a ++ (b':' ∷ x))
colon_inside [] x h = h.0 refl
colon_inside (c ∷ a) x h = colon_inside a x h.1

-- What stands before the last colon, and what follows it.
last_colon :
    (a b x y : Text)
    → HasNoColon x
    → HasNoColon y
    → a ++ (b':' ∷ x) ≡ b ++ (b':' ∷ y)
    → (a ≡ b) × (x ≡ y)
last_colon [] [] x y hx hy e = (refl, cc (e))
last_colon [] (d ∷ b) x y hx hy e =
    let inside : x ≡ b ++ (b':' ∷ y) = cc (e) in absurd (colon_inside b y (rw inside at hx))
last_colon (c ∷ a) [] x y hx hy e =
    let inside : y ≡ a ++ (b':' ∷ x) = cc (e) in absurd (colon_inside a x (rw inside at hy))
last_colon (c ∷ a) (d ∷ b) x y hx hy e =
    let rest : a ++ (b':' ∷ x) ≡ b ++ (b':' ∷ y) = cc (e) in
    let t = last_colon a b x y hx hy rest in let heads : c ≡ d = cc (e) in (cc (heads, t.0), t.1)

-- One and the same message of a server: no connection is as good as one with an empty id, and a message
-- without an arrival number is not one with a number.
pub record IsSame (m n : NatsMessage) : Type 0 where
  pub conn : or_default [] m.conn_id ≡ or_default [] n.conn_id
  pub subject : m.subject ≡ n.subject
  pub timestamp : m.timestamp ≡ n.timestamp
  pub sequence : m.sequence ≡ n.sequence

-- A number in decimal is not empty.
decimal_digits-more : (fuel n : ℕ) (c : ℕ) (out : Text) → decimal_digits fuel n (c ∷ out) ≢ []
unfolding decimal_digits
decimal_digits-more zero n c out e = absurd (cc (e))
decimal_digits-more (suc fuel) n c out e = elim (Bool-cases (nat_beq n 0)) [
  | inl h ↦ absurd (cc (rw h at e))
  | inr h ↦ decimal_digits-more fuel (n / 10) (b'0' + n % 10) (c ∷ out) (rw h at e)
]

decimal_ne : (n : ℕ) → decimal n ≢ []
unfolding decimal
decimal_ne zero e = absurd (cc (e))
decimal_ne (suc n) e =
    let positive : nat_beq (suc n) 0 ≡ false = ground arith in
    decimal_digits-more n (suc n / 10) (b'0' + suc n % 10) [] (rw positive at e)

optional_decimal-injective : (o p : Option ℕ) → optional_decimal o ≡ optional_decimal p → o ≡ p
optional_decimal-injective none none e = refl
optional_decimal-injective none (some m) e = absurd (decimal_ne (m) (sym e))
optional_decimal-injective (some n) none e = absurd (decimal_ne n e)
optional_decimal-injective (some n) (some m) e = ap some (decimal-injective n m e)

-- Messages with one key are one message, if the ids of the connections have no colon.
pub message_key-IsSame :
    (m n : NatsMessage)
    → HasNoColon (or_default [] m.conn_id)
    → HasNoColon (or_default [] n.conn_id)
    → message_key m ≡ message_key n
    → IsSame m n
unfolding message_key
message_key-IsSame m n hm hn e =
    let t = first_colon _ _ _ _ hm hn e in
    let u =
      last_colon (m.subject ++ (b':' ∷ decimal m.timestamp))
        (n.subject ++ (b':' ∷ decimal n.timestamp)) _ _ (optional_decimal-HasNoColon m.sequence)
        (optional_decimal-HasNoColon n.sequence)
        (append_assoc m.subject (b':' ∷ decimal m.timestamp) _
          ∙ t.1
          ∙ sym (append_assoc n.subject (b':' ∷ decimal n.timestamp) _)) in
    let v =
      last_colon m.subject n.subject _ _ (decimal-HasNoColon m.timestamp)
        (decimal-HasNoColon n.timestamp) u.0 in
    record {
      conn = t.0;
      subject = v.0;
      timestamp = decimal-injective m.timestamp n.timestamp v.1;
      sequence = optional_decimal-injective m.sequence n.sequence u.1;
    }
