-- ===== src/Messages.antt =====
-- shared/src/messages.ts and client/src/lib/messages.ts: messages, their identity and their order.
-- Times, sizes and arrival numbers are natural numbers: milliseconds, bytes and counts.
pub mod Order
pub mod Keys
use nats_explorer.Prelude.{
  ℕ, zero, suc, ◌+◌, ◌-◌, ◌/◌, ◌%◌, ◌≤◌, Text, codes, List, [], ◌∷◌, ◌++◌, Bool, true, false,
  Option, none, some, if◌then◌else◌, leb, nat_beq,
}
use nats_explorer.Prelude.Int.{ℤ, sub_ℕ, or_else}

pub data PayloadType : Type 0 where
  string json binary : PayloadType

pub record SchemaVerdict : Type 0 where
  pub valid : Bool
  pub violations : Option (List Text)
  pub pattern : Text

pub record NatsMessage : Type 0 where
  pub subject : Text
  pub payload : Text
  pub payload_type : PayloadType
  pub headers : Option (List (Text × List Text))
  pub timestamp : ℕ
  pub reply : Option Text
  pub size : ℕ
  pub sequence : Option ℕ
  pub conn_id : Option Text
  pub schema : Option SchemaVerdict

-- `x ?? d`.
abbrev pub or_default {ℓ} : {A : Type ℓ} → A → Option A → A
or_default d none = d
or_default d (some x) = x

-- A number in decimal, as a template literal prints it. Each round divides by ten, so fuel above the
-- number of digits is enough; the number itself is.
unfoldable pub decimal_digits : ℕ → ℕ → Text → Text
decimal_digits zero n out = out
decimal_digits (suc fuel) n out =
    let rest = decimal_digits fuel (n / 10) ((b'0' + n % 10) ∷ out) in
    if nat_beq n 0 then out else rest

unfoldable pub decimal : ℕ → Text
unfolding decimal_digits
decimal n = if nat_beq n 0 then b'0' ∷ [] else decimal_digits n n []

abbrev pub optional_decimal : Option ℕ → Text
optional_decimal none = []
optional_decimal (some n) = decimal n

unfoldable pub message_key : NatsMessage → Text
unfolding decimal
message_key m =
    or_default [] m.conn_id
    ++ (b':'
        ∷ (m.subject ++ (b':' ∷ (decimal m.timestamp ++ (b':' ∷ optional_decimal m.sequence)))))

unfoldable pub by_arrival : NatsMessage → NatsMessage → ℤ
by_arrival a b =
    or_else (sub_ℕ a.timestamp b.timestamp)
      (sub_ℕ (or_default 0 a.sequence) (or_default 0 b.sequence))

unfoldable pub newer_first : NatsMessage → NatsMessage → ℤ
unfolding by_arrival
newer_first a b = by_arrival b a

-- The loop of `recentRate` runs from the end; `newest` is the list from its end.
unfoldable pub count_recent : ℕ → List NatsMessage → ℕ
count_recent cutoff [] = 0
count_recent cutoff (m ∷ newest) =
    let rest = count_recent cutoff newest in if leb cutoff m.timestamp then suc rest else 0
