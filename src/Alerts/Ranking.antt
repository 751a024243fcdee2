-- ===== src/Alerts/Ranking.antt =====
-- client/src/lib/alerts.ts and client/src/store/alerts.ts: the order of alerts and the worst of them.
use mathlib.Core.List.{Mem, mem-cons_self, mem-cons_of_mem, Perm}
use nats_explorer.Prelude.{
  ℕ, ◌≤◌, text_beq, List, [], ◌∷◌, Bool, true, false, not, ◌&&◌, Option, none, some, ◌==◌, text_eq,
  any, filter, nat_beq, ◌≡◌, refl, ◌∙◌, arith, All, ◌⊎◌, inl, inr,
}
use nats_explorer.Prelude.Int.{ℤ, sub_ℕ, or_else, is_negative}
use nats_explorer.Prelude.Sort.{sort_by, Comparator, IsSorted, sort_by-perm, sort_by-IsSorted}
use nats_explorer.Alerts.{AlertSeverity, info, warning, critical, Alert}

-- `SEVERITIES.indexOf`.
abbrev pub severity_rank : AlertSeverity → ℕ
severity_rank info = 0
severity_rank warning = 1
severity_rank critical = 2

unfoldable pub worse_first : Alert → Alert → ℤ
worse_first a b =
    or_else (sub_ℕ (severity_rank b.severity) (severity_rank a.severity)) (sub_ℕ b.since a.since)

unfoldable pub sort_alerts : List Alert → List Alert
unfolding sort_by worse_first
sort_alerts alerts = sort_by worse_first alerts

unfoldable pub newly_firing : List Alert → List Alert → List Alert
unfolding text_beq
newly_firing previous next = filter (λ a. not (any (λ b. b.key == a.key) previous)) next

abbrev pub is_set : Option Bool → Bool
is_set none = false
is_set (some b) = b

abbrev pub is_acked : Option ℕ → Bool
is_acked none = false
is_acked (some t) = not (nat_beq t 0)

unfoldable pub unattended : List Alert → List Alert
unattended active = filter (λ a. not (is_acked a.acked_at) && not (is_set a.muted)) active

abbrev pub at_least_info : Option AlertSeverity → Option AlertSeverity
at_least_info none = some info
at_least_info (some w) = some w

-- The loop of `worstSeverity` with the worst so far.
unfoldable pub worst_from : Option AlertSeverity → List Alert → Option AlertSeverity
worst_from worst [] = worst
worst_from worst (a ∷ active) = elim a.severity [
  | critical ↦ some critical
  | warning ↦ worst_from (some warning) active
  | info ↦ worst_from (at_least_info worst) active
]

unfoldable pub worst_severity : List Alert → Option AlertSeverity
unfolding worst_from
worst_severity active = worst_from none active

worse_first-total :
    (a b : Alert) → is_negative (worse_first a b) ≡ true → is_negative (worse_first b a) ≡ false
unfolding worse_first
worse_first-total a b h = ground arith

worse_first_trans :
    (a b c : Alert)
    → is_negative (worse_first b a) ≡ false
    → is_negative (worse_first c b) ≡ false
    → is_negative (worse_first c a) ≡ false
unfolding worse_first
worse_first_trans a b c h k = ground arith

worse_first-Comparator : Comparator worse_first
worse_first-Comparator = record { total = worse_first-total; trans = worse_first_trans }

-- The list of alerts is the given one in another order, the worst alerts first and the newer of two equally
-- bad ones before the older.
sort_alerts-IsSorted :
    (alerts : List Alert)
    → Perm (sort_alerts alerts) alerts × IsSorted worse_first (sort_alerts alerts)
unfolding sort_alerts
sort_alerts-IsSorted alerts =
    (sort_by-perm worse_first alerts, sort_by-IsSorted worse_first worse_first-Comparator alerts)

severity_cases : (s : AlertSeverity) → (s ≡ critical) ⊎ ((s ≡ warning) ⊎ (s ≡ info))
severity_cases critical = inl refl
severity_cases warning = inr (inl refl)
severity_cases info = inr (inr refl)

rank_critical : (s : AlertSeverity) → severity_rank s ≤ 2
rank_critical info = omega arith
rank_critical warning = omega arith
rank_critical critical = omega arith

all_critical : (active : List Alert) → All (λ a. severity_rank a.severity ≤ 2) active
all_critical [] = tt
all_critical (a ∷ active) = (rank_critical a.severity, all_critical active)

-- `w` is at least as bad as `start` and every alert, and it is `start` or the severity of an alert.
record IsWorst (start : AlertSeverity) (active : List Alert) (w : AlertSeverity) : Type 0 where
  above_start : severity_rank start ≤ severity_rank w
  above : All (λ a. severity_rank a.severity ≤ severity_rank w) active
  reached : (start ≡ w) ⊎ ((a : Alert) × Mem a active × (a.severity ≡ w))

worst_from-critical :
    (a : Alert) (worst : Option AlertSeverity) (active : List Alert)
    → a.severity ≡ critical
    → worst_from worst (a ∷ active) ≡ some critical
unfolding worst_from
worst_from-critical a worst active h = rw h refl

worst_from-warning :
    (a : Alert) (worst : Option AlertSeverity) (active : List Alert)
    → a.severity ≡ warning
    → worst_from worst (a ∷ active) ≡ worst_from (some warning) active
unfolding worst_from
worst_from-warning a worst active h = rw h refl

worst_from-info :
    (a : Alert) (worst : Option AlertSeverity) (active : List Alert)
    → a.severity ≡ info
    → worst_from worst (a ∷ active) ≡ worst_from (at_least_info worst) active
unfolding worst_from
worst_from-info a worst active h = rw h refl

later :
    (start next w : AlertSeverity) (a : Alert) (active : List Alert)
    → a.severity ≡ next
    → severity_rank start ≤ severity_rank next
    → IsWorst next active w
    → IsWorst start (a ∷ active) w
later start next w a active h k i = record {
  above_start = omega (arith, k, i.above_start);
  above = (rw h i.above_start, i.above);
  reached = elim i.reached [
    | inl e ↦ inr (a, mem-cons_self, cc (h, e))
    | inr (b, m, e) ↦ inr (b, mem-cons_of_mem a m, e)
  ];
}

kept :
    (start w : AlertSeverity) (a : Alert) (active : List Alert)
    → severity_rank a.severity ≤ severity_rank start
    → IsWorst start active w
    → IsWorst start (a ∷ active) w
kept start w a active h i = record {
  above_start = i.above_start;
  above = (omega (arith, h, i.above_start), i.above);
  reached = elim i.reached [ inl e ↦ inl e | inr (b, m, e) ↦ inr (b, mem-cons_of_mem a m, e) ];
}

worst_from-IsWorst :
    (start : AlertSeverity) (active : List Alert)
    → severity_rank start ≤ 1
    → (w : AlertSeverity) × (worst_from (some start) active ≡ some w) × IsWorst start active w
worst_from-IsWorst start [] h = (
  start,
  unfold worst_from in refl,
  record { above_start = omega arith; above = tt; reached = inl refl },
)
worst_from-IsWorst start (a ∷ active) h = elim (severity_cases a.severity) [
  | inl e ↦ (
    critical,
    worst_from-critical a (some start) active e,
    record {
      above_start = omega (arith, h);
      above = (rank_critical a.severity, all_critical active);
      reached = inr (a, mem-cons_self, e);
    },
  )
  | inr (inl e) ↦
      let r = worst_from-IsWorst warning active (omega arith) in
      (
        r.0,
        worst_from-warning a (some start) active e ∙ r.1,
        later start warning r.0 a active e (omega (arith, h)) r.2,
      )
  | inr (inr e) ↦
      let r = worst_from-IsWorst start active h in
      (
        r.0,
        worst_from-info a (some start) active e ∙ r.1,
        kept start r.0 a active (rw e (omega arith)) r.2,
      )
]

-- The worst severity of alerts that are there is the severity of one of them, and none is worse.
pub worst_severity-worst :
    (a : Alert) (active : List Alert)
    → (w : AlertSeverity) × (worst_severity (a ∷ active) ≡ some w)
      × All (λ b. severity_rank b.severity ≤ severity_rank w) (a ∷ active)
      × ((b : Alert) × Mem b (a ∷ active) × (b.severity ≡ w))
unfolding worst_severity
worst_severity-worst a active = elim (severity_cases a.severity) [
  | inl e ↦ (
    critical,
    worst_from-critical a none active e,
    (rank_critical a.severity, all_critical active),
    (a, mem-cons_self, e),
  )
  | inr (inl e) ↦ found warning (omega arith) e (worst_from-warning a none active e)
  | inr (inr e) ↦ found info (omega arith) e (worst_from-info a none active e)
]
  where
    found :
        (s : AlertSeverity)
        → severity_rank s ≤ 1
        → a.severity ≡ s
        → worst_from none (a ∷ active) ≡ worst_from (some s) active
        → (w : AlertSeverity) × (worst_from none (a ∷ active) ≡ some w)
          × All (λ b. severity_rank b.severity ≤ severity_rank w) (a ∷ active)
          × ((b : Alert) × Mem b (a ∷ active) × (b.severity ≡ w))
    found s h e step =
        let r = worst_from-IsWorst s active h in
        let i = r.2 in
        (
          r.0,
          step ∙ r.1,
          (rw e i.above_start, i.above),
          elim i.reached [
            | inl f ↦ (a, mem-cons_self, e ∙ f)
            | inr (b, m, f) ↦ (b, mem-cons_of_mem a m, f)
          ],
        )
