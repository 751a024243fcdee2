-- ===== src/Monitoring/History/Spacing.antt =====
-- The samples of a connection: their number, their spacing and the axis of the charts.
use nats_explorer.Prelude.{
  ℕ, ◌+◌, ◌*◌, ◌-◌, ◌≤◌, Text, text_beq_iff, List, [], ◌∷◌, ◌++◌, map, false, ◌&&◌, Option, ◌≡◌,
  refl, ap, arith, ltb, leb, length, drop, last?, inl, inr, Bool-cases, ◌==◌, text_eq, length-drop,
  zero, suc,
}
use nats_explorer.Prelude.Table.{set, get-set, get-set_ne, get-delete, get-delete_ne}
use nats_explorer.Monitoring.History.{
  Sample, Varz, JszApi, sample_of, is_too_early, push_sample, samples_for, record_sample,
  clear_samples, Rate, rate_between, rates_from, rate_series, gauge_series,
}

-- Each sample is at least half a second after the one before it.
abbrev pub IsSpaced : List Sample → Type 0
IsSpaced [] = Unit
IsSpaced (a ∷ []) = Unit
IsSpaced (a ∷ b ∷ samples) = (a.t + 500 ≤ b.t) × IsSpaced (b ∷ samples)

IsSpaced-tail : (a : Sample) (samples : List Sample) → IsSpaced (a ∷ samples) → IsSpaced samples
IsSpaced-tail a [] h = tt
IsSpaced-tail a (b ∷ samples) h = h.1

IsSpaced-drop : (n : ℕ) (samples : List Sample) → IsSpaced samples → IsSpaced (drop n samples)
IsSpaced-drop zero samples h = h
IsSpaced-drop (suc n) [] h = h
IsSpaced-drop (suc n) (a ∷ samples) h = IsSpaced-drop n samples (IsSpaced-tail a samples h)

IsSpaced-append :
    (samples : List Sample) (s : Sample)
    → IsSpaced samples
    → is_too_early s.t (last? samples) ≡ false
    → IsSpaced (samples ++ s ∷ [])
IsSpaced-append [] s h e = tt
IsSpaced-append (a ∷ []) s h e = (ground (arith, e), tt)
IsSpaced-append (a ∷ b ∷ samples) s h e = (h.0, IsSpaced-append (b ∷ samples) s h.1 e)

push_sample-IsSpaced :
    (s : Sample) (list : List Sample)
    → IsSpaced list
    → is_too_early s.t (last? list) ≡ false
    → IsSpaced (push_sample s list)
unfolding push_sample
push_sample-IsSpaced s list h e = elim (Bool-cases (ltb 720 (length (list ++ s ∷ [])))) [
  | inl f ↦ rw f (IsSpaced-drop _ _ (IsSpaced-append list s h e))
  | inr f ↦ rw f (IsSpaced-append list s h e)
]

length-push_sample : (s : Sample) (list : List Sample) → length (push_sample s list) ≤ 720
unfolding push_sample
length-push_sample s list =
    ground (arith, length-drop (length (list ++ s ∷ []) - 720) (list ++ s ∷ []))

pub record IsHistory (list : List Sample) : Type 0 where
  pub fits : length list ≤ 720
  pub spaced : IsSpaced list

-- Every connection's samples, whatever the polls.
abbrev pub IsRecorded : List (Text × List Sample) → Type 0
IsRecorded histories = (conn_id : Text) → IsHistory (samples_for conn_id histories)

samples_for-set :
    (conn_id id : Text) (list : List Sample) (histories : List (Text × List Sample))
    → IsHistory list
    → IsRecorded histories
    → IsHistory (samples_for id (set conn_id list histories))
unfolding samples_for
samples_for-set conn_id id list histories k h = elim (Bool-cases (conn_id == id)) [
  | inl e ↦ rw ((text_beq_iff conn_id id).0 e, get-set id list histories) k
  | inr e ↦
      rw
        (get-set_ne conn_id id list histories (λ p. absurd (cc ((text_beq_iff conn_id id).1 p, e))))
        (h id)
]

record_sample-kept :
    (now : ℕ) (conn_id : Text) (varz : Varz) (jsz : Option JszApi)
    (histories : List (Text × List Sample))
    → IsRecorded histories
    → IsRecorded (record_sample now conn_id varz jsz histories)
unfolding record_sample sample_of
record_sample-kept now conn_id varz jsz histories h id =
    elim (Bool-cases (is_too_early now (last? (samples_for conn_id histories)))) [
      | inl e ↦ rw e (h id)
      | inr e ↦ rw e (
          samples_for-set conn_id id _ histories
            (record {
              fits = length-push_sample _ _;
              spaced = push_sample-IsSpaced _ _ (h conn_id).spaced e;
            })
            h)
    ]

clear_samples-kept :
    (conn_id : Text) (histories : List (Text × List Sample))
    → IsRecorded histories
    → IsRecorded (clear_samples conn_id histories)
unfolding clear_samples samples_for
clear_samples-kept conn_id histories h id = elim (Bool-cases (conn_id == id)) [
  | inl e ↦
      rw ((text_beq_iff conn_id id).0 e, get-delete id histories)
        (record { fits = omega arith; spaced = tt })
  | inr e ↦
      rw (get-delete_ne conn_id id histories (λ p. absurd (cc ((text_beq_iff conn_id id).1 p, e))))
        (h id)
]

-- Recording a poll and clearing a connection keep the samples of every connection at most 720 and at
-- least half a second apart, whatever the clock says.
pub record_sample-IsRecorded :
    (now : ℕ) (conn_id : Text) (varz : Varz) (jsz : Option JszApi)
    (histories : List (Text × List Sample))
    → IsRecorded histories
    → IsRecorded (record_sample now conn_id varz jsz histories)
      × IsRecorded (clear_samples conn_id histories)
record_sample-IsRecorded now conn_id varz jsz histories h =
    (record_sample-kept now conn_id varz jsz histories h, clear_samples-kept conn_id histories h)

rates_from-times :
    (pick gauge : Sample → ℕ) (a : Sample) (samples : List Sample)
    → map (λ r. r.time) (rates_from pick a samples)
      ≡ map (λ (p : ℕ × ℕ). p.0) (map (λ s. (s.t, gauge s)) samples)
unfolding rates_from rate_between
rates_from-times pick gauge a [] = refl
rates_from-times pick gauge a (b ∷ samples) =
    elim (Bool-cases (ltb a.t b.t && leb (pick a) (pick b))) [
      | inl e ↦ rw e (ap (◌∷◌ b.t) (rates_from-times pick gauge b samples))
      | inr e ↦ rw e (ap (◌∷◌ b.t) (rates_from-times pick gauge b samples))
    ]

-- A chart of rates and a chart of gauges over the same samples have the same times.
rate_series-times :
    (pick gauge : Sample → ℕ) (samples : List Sample)
    → map (λ r. r.time) (rate_series pick samples)
      ≡ map (λ (p : ℕ × ℕ). p.0) (gauge_series gauge samples)
unfolding rate_series gauge_series
rate_series-times pick gauge [] = refl
rate_series-times pick gauge (a ∷ samples) = rates_from-times pick gauge a samples

-- The counter never falls from one sample to the next.
abbrev pub IsCounting : (Sample → ℕ) → List Sample → Type 0
IsCounting pick [] = Unit
IsCounting pick (a ∷ []) = Unit
IsCounting pick (a ∷ b ∷ samples) = (pick a ≤ pick b) × IsCounting pick (b ∷ samples)

abbrev pub total_grown : List Rate → ℕ
total_grown [] = 0
total_grown (r ∷ rates) = r.grown + total_grown rates

abbrev pub last_pick : (Sample → ℕ) → Sample → List Sample → ℕ
last_pick pick a [] = pick a
last_pick pick a (b ∷ samples) = last_pick pick b samples

-- Over spaced samples of a counter that never falls, the growth of all the rates together is the growth
-- of the counter from the first sample to the last.
rate_series-total :
    (pick : Sample → ℕ) (a : Sample) (samples : List Sample)
    → IsSpaced (a ∷ samples)
    → IsCounting pick (a ∷ samples)
    → total_grown (rate_series pick (a ∷ samples)) + pick a * 1000 ≡ last_pick pick a samples * 1000
unfolding rate_series rates_from rate_between
rate_series-total pick a [] h k = omega arith
rate_series-total pick a (b ∷ samples) h k =
    ground (arith, rate_series-total pick b samples h.1 k.1, h.0, k.0)
