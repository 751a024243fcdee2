-- ===== src/Alerts/Rules/Accepted.antt =====
-- Rules as the dialog takes them, in terms of their fields.
use nats_explorer.Prelude.{
  ℕ, suc, codes, ◌++◌, ◌≤◌, Text, text_eq, true, false, Option, none, some, any, is_space, ◌≡◌, All,
  ◌⊎◌,
}
use nats_explorer.Prelude.Int.{ℤ, pos}
use nats_explorer.Prelude.Trim.{trim}
use nats_explorer.Subjects.Match.{is_empty, tokens}
use nats_explorer.Subjects.Match.Matching.{IsWellFormed}
use nats_explorer.Alerts.{AlertRule}
use nats_explorer.Alerts.Rules.Addresses.{IsAddresses}

-- A text that is there and not blank.
abbrev pub IsSaid : Option Text → Type 0
IsSaid o = (s : Text) × (o ≡ some s) × (is_empty (trim s) ≡ false)

-- A number of at least one.
abbrev pub IsAboveZero : Option ℤ → Type 0
IsAboveZero o = (n : ℕ) × (o ≡ some (pos (suc n)))

-- A number that is missing or not negative.
abbrev pub IsNatural : Option ℤ → Type 0
IsNatural o = (o ≡ none) ⊎ ((n : ℕ) × (o ≡ some (pos n)))

-- A bound on the count of messages or on a value.
pub data HasLimit (r : AlertRule) : Type 0 where
  at_least : (n : ℤ) → r.min_count ≡ some n → HasLimit r
  at_most : (n : ℤ) → r.max_count ≡ some n → HasLimit r
  over : (n : ℤ) → r.above ≡ some n → HasLimit r
  under : (n : ℤ) → r.below ≡ some n → HasLimit r

-- What a rule can watch for.
pub data Watches (r : AlertRule) : Type 0 where
  expression : IsSaid r.expr → Watches r
  silence : IsAboveZero r.stale_after → Watches r
  rhythm : r.stale_auto ≡ some true → Watches r
  over_window : IsAboveZero r.window → HasLimit r → Watches r
  same_value : IsAboveZero r.unchanged_for → Watches r

pub record IsPattern (pattern : Text) : Type 0 where
  pub no_blank : any is_space pattern ≡ false
  pub no_gap : All (λ t. is_empty t ≡ false) (tokens pattern)
  pub rest_last : IsWellFormed (tokens pattern)

pub data IsWebhook (o : Option Text) : Type 0 where
  no_webhook : o ≡ none → IsWebhook o
  blank_webhook : (s : Text) → o ≡ some s → is_empty (trim s) ≡ true → IsWebhook o
  http : (s rest : Text) → o ≡ some s → trim s ≡ codes "http://" ++ rest → IsWebhook o
  https : (s rest : Text) → o ≡ some s → trim s ≡ codes "https://" ++ rest → IsWebhook o

pub data IsRecipients (o : Option Text) : Type 0 where
  no_mail : o ≡ none → IsRecipients o
  blank_mail : (s : Text) → o ≡ some s → is_empty (trim s) ≡ true → IsRecipients o
  mail : (s : Text) → o ≡ some s → IsAddresses s → IsRecipients o

pub record IsAccepted (r : AlertRule) : Type 0 where
  pub named : is_empty (trim r.name) ≡ false
  pub pattern : IsPattern (trim r.pattern)
  pub watches : Watches r
  pub window : (r.window ≡ none) ⊎ ((w : ℕ) × (r.window ≡ some (pos w)) × (w ≤ 86400))
  pub windowed :
      ((r.min_count ≡ none) × (r.max_count ≡ none) × (r.above ≡ none) × (r.below ≡ none))
      ⊎ IsAboveZero r.window
  pub field : ((r.above ≡ none) × (r.below ≡ none)) ⊎ IsSaid r.field
  pub silence : IsNatural r.stale_after
  pub least : IsNatural r.min_count
  pub most : IsNatural r.max_count
  pub unchanged : IsNatural r.unchanged_for
  pub webhook : IsWebhook r.webhook
  pub email : IsRecipients r.email
