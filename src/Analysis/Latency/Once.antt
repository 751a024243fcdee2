-- ===== src/Analysis/Latency/Once.antt =====
-- The pairs of `stepLatency` and the starts they use.
use mathlib.Core.Path.{subst}
use nats_explorer.Prelude.{
  ℕ, ◌+◌, ◌-◌, ◌≤◌, Text, text_beq, text_beq_iff, text_eq, ◌==◌, List, [], ◌∷◌, ◌++◌, Bool, true,
  false, ◌&&◌, Option, none, some, ◌≡◌, ◌≢◌, refl, arith, nat_beq, ltb, length, length-append, All,
  All-append, inl, inr, Bool-cases,
}
use nats_explorer.Prelude.Tests.{nat_beq_iff}
use nats_explorer.Prelude.Strings.{texts_ne}
use nats_explorer.Prelude.Sort.{sort_by, length-sort_by}
use nats_explorer.Prelude.Table.{get, set, get-set, get-set_ne}
use nats_explorer.Messages.{NatsMessage}
use nats_explorer.Transfer.Replay.{by_time}
use nats_explorer.Analysis.Latency.{
  StepPair, Times, is_used, best_start, Pairing, orphan, seen_of, pair_with, pair_from, pair_step,
  pair_all, no_pairing, sort_starts, collect_starts, paired,
}

-- The best start is not after the limit and not used.
best_start-IsFree :
    (limit : ℕ) (used : List ℕ) (best : Option ℕ) (ts : List ℕ) (b : ℕ)
    → ((c : ℕ) → best ≡ some c → (c ≤ limit) × (is_used c used ≡ false))
    → best_start limit used best ts ≡ some b
    → (b ≤ limit) × (is_used b used ≡ false)
unfolding best_start
best_start-IsFree limit used best [] b h e = h b e
best_start-IsFree limit used best (t ∷ ts) b h e = elim (Bool-cases (ltb limit t)) [
  | inl l ↦ h b (rw l at e)
  | inr l ↦ elim (Bool-cases (is_used t used)) [
    | inl u ↦ best_start-IsFree limit used best ts b h (rw (l, u) at e)
    | inr u ↦
        best_start-IsFree limit used (some t) ts b
          (λ c k. let same : t ≡ c = cc (k) in (ground (arith, same, l), rw same at u))
          (rw (l, u) at e)
  ]
]

abbrev pub IsForward : StepPair → Type 0
IsForward p = (p.from ≤ p.to) × (p.delta_ms ≡ p.to - p.from)

abbrev pub same_start : StepPair → StepPair → Bool
same_start p q = p.value == q.value && nat_beq p.from q.from

-- No two pairs have the same start.
abbrev pub IsOnce : List StepPair → Type 0
IsOnce [] = Unit
IsOnce (p ∷ ps) = All (λ q. same_start p q ≡ false) ps × IsOnce ps

IsOnce-snoc :
    (ps : List StepPair) (q : StepPair)
    → IsOnce ps
    → All (λ p. same_start p q ≡ false) ps
    → IsOnce (ps ++ q ∷ [])
IsOnce-snoc [] q o a = (tt, tt)
IsOnce-snoc (p ∷ ps) q o a =
    (All-append (λ r. same_start p r ≡ false) ps (q ∷ []) o.0 (a.0, tt), IsOnce-snoc ps q o.1 a.1)

-- What the loop keeps: `done` messages of the second subject are dealt with.
record IsPaired (dealt : ℕ) (p : Pairing) : Type 0 where
  forward : All IsForward p.pairs
  marked : All (λ q. is_used q.from (seen_of q.value p.used) ≡ true) p.pairs
  once : IsOnce p.pairs
  counted : length p.pairs + p.orphans ≡ dealt

orphan-IsPaired : (n : ℕ) (p : Pairing) → IsPaired n p → IsPaired (n + 1) (orphan p)
orphan-IsPaired n p i = record {
  forward = i.forward;
  marked = i.marked;
  once = i.once;
  counted = omega (arith, i.counted);
}

is_used-append :
    (t b : ℕ) (used : List ℕ) → is_used t used ≡ true → is_used t (used ++ b ∷ []) ≡ true
is_used-append t b [] h = absurd (cc (h))
is_used-append t b (u ∷ used) h = elim (Bool-cases (nat_beq u t)) [
  | inl e ↦ rw e refl
  | inr e ↦ rw e (is_used-append t b used (rw e at h))
]

is_used-new : (b : ℕ) (used : List ℕ) → is_used b (used ++ b ∷ []) ≡ true
is_used-new b [] = rw ((nat_beq_iff b b).1 refl) refl
is_used-new b (u ∷ used) = elim (Bool-cases (nat_beq u b)) [
  | inl e ↦ rw e refl
  | inr e ↦ rw e (is_used-new b used)
]

-- The starts that were marked stay marked, and the new one is marked.
seen_of-same : (v : Text) (ts : List ℕ) (used : Times) → seen_of v (set v ts used) ≡ ts
seen_of-same v ts used = rw (get-set v ts used) refl

seen_of-other :
    (v w : Text) (ts : List ℕ) (used : Times) → v ≢ w → seen_of w (set v ts used) ≡ seen_of w used
seen_of-other v w ts used h = rw (get-set_ne v w ts used h) refl

mark_kept :
    (v w : Text) (b t : ℕ) (used : Times)
    → is_used t (seen_of w used) ≡ true
    → is_used t (seen_of w (set v (seen_of v used ++ b ∷ []) used)) ≡ true
mark_kept v w b t used h = elim (Bool-cases (text_beq v w)) [
  | inl e ↦
      let same = (text_beq_iff v w).0 e in
      let on_v : is_used t (seen_of v used) ≡ true = rw same h in
      let new : is_used t (seen_of v (set v (seen_of v used ++ b ∷ []) used)) ≡ true =
        rw (seen_of-same v (seen_of v used ++ b ∷ []) used)
          (is_used-append t b (seen_of v used) on_v) in
      subst (λ x. is_used t (seen_of x (set v (seen_of v used ++ b ∷ []) used)) ≡ true) same new
  | inr e ↦ rw (seen_of-other v w (seen_of v used ++ b ∷ []) used (texts_ne v w e)) h
]

fresh_start :
    (v w : Text) (b t : ℕ) (used : Times)
    → is_used b (seen_of v used) ≡ false
    → is_used t (seen_of w used) ≡ true
    → (w == v && nat_beq t b) ≡ false
fresh_start v w b t used h k = elim (Bool-cases (text_beq w v)) [
  | inl e ↦ elim (Bool-cases (nat_beq t b)) [
    | inl n ↦ absurd (cc (h, k, (text_beq_iff w v).0 e, (nat_beq_iff t b).0 n))
    | inr n ↦ rw (e, n) refl
  ]
  | inr e ↦ rw e refl
]

every {ℓ κ μ} :
    {A : Type ℓ} (P : A → Type κ) (Q : A → Type μ) (f : (x : A) → P x → Q x) (xs : List A)
    → All P xs
    → All Q xs
every P Q f [] a = tt
every P Q f (x ∷ xs) a = (f x a.0, every P Q f xs a.1)

pair_with-IsPaired :
    (n : ℕ) (v : Text) (at best : ℕ) (p : Pairing)
    → best ≤ at
    → is_used best (seen_of v p.used) ≡ false
    → IsPaired n p
    → IsPaired (n + 1) (pair_with v at (some best) p)
pair_with-IsPaired n v at best p h k i =
    let new : StepPair = record { value = v; from = best; to = at; delta_ms = at - best } in
    let used = set v (seen_of v p.used ++ best ∷ []) p.used in
    let Marked : Times → StepPair → Type 0 = λ u q. is_used q.from (seen_of q.value u) ≡ true in
    let old =
      every (Marked p.used) (Marked used) (λ q m. mark_kept v q.value best q.from p.used m) p.pairs
        i.marked in
    let own : is_used best (seen_of v used) ≡ true =
      rw (seen_of-same v (seen_of v p.used ++ best ∷ []) p.used)
        (is_used-new best (seen_of v p.used)) in
    let apart =
      every (Marked p.used) (λ q. same_start q new ≡ false)
        (λ q m. fresh_start v q.value best q.from p.used k m) p.pairs i.marked in
    record {
      forward = All-append IsForward p.pairs (new ∷ []) i.forward ((h, refl), tt);
      marked = All-append (Marked used) p.pairs (new ∷ []) old (own, tt);
      once = IsOnce-snoc p.pairs new i.once apart;
      counted = omega (arith, i.counted, length-append p.pairs (new ∷ []));
    }

pair_best :
    (n : ℕ) (v : Text) (at : ℕ) (best : Option ℕ) (p : Pairing)
    → ((b : ℕ) → best ≡ some b → (b ≤ at) × (is_used b (seen_of v p.used) ≡ false))
    → IsPaired n p
    → IsPaired (n + 1) (pair_with v at best p)
pair_best n v at none p h i = orphan-IsPaired n p i
pair_best n v at (some b) p h i = pair_with-IsPaired n v at b p (h b refl).0 (h b refl).1 i

pair_from-IsPaired :
    (n : ℕ) (v : Text) (at : ℕ) (starts : Option (List ℕ)) (p : Pairing)
    → IsPaired n p
    → IsPaired (n + 1) (pair_from v at starts p)
pair_from-IsPaired n v at none p i = orphan-IsPaired n p i
pair_from-IsPaired n v at (some ts) p i =
    pair_best n v at (best_start at (seen_of v p.used) none ts) p
      (λ b e. best_start-IsFree at (seen_of v p.used) none ts b (λ c k. absurd (cc (k))) e) i

pair_step-IsPaired :
    (n : ℕ) (starts : Times) (value : Option Text) (at : ℕ) (p : Pairing)
    → IsPaired n p
    → IsPaired (n + 1) (pair_step starts value at p)
unfolding pair_step
pair_step-IsPaired n starts none at p i = orphan-IsPaired n p i
pair_step-IsPaired n starts (some []) at p i = orphan-IsPaired n p i
pair_step-IsPaired n starts (some (c ∷ v)) at p i =
    pair_from-IsPaired n (c ∷ v) at (get (c ∷ v) starts) p i

pair_all-IsPaired :
    (n : ℕ) (value_of : NatsMessage → Option Text) (starts : Times) (ms : List NatsMessage)
    (p : Pairing)
    → IsPaired n p
    → IsPaired (length ms + n) (pair_all value_of starts ms p)
unfolding pair_all
pair_all-IsPaired n value_of starts [] p i = record {
  forward = i.forward;
  marked = i.marked;
  once = i.once;
  counted = omega (arith, i.counted);
}
pair_all-IsPaired n value_of starts (m ∷ ms) p i =
    let r =
      pair_all-IsPaired (n + 1) value_of starts ms (pair_step starts (value_of m) m.timestamp p)
        (pair_step-IsPaired n starts (value_of m) m.timestamp p i) in
    record {
      forward = r.forward;
      marked = r.marked;
      once = r.once;
      counted = omega (arith, r.counted);
    }

-- Of the messages of the second subject each is paired or an orphan; a pair goes forward in time and its
-- gap is the time between its two messages; and no start is in two pairs.
pub paired-IsOnce :
    (value_of : NatsMessage → Option Text) (from to : List NatsMessage)
    → (length (paired value_of from to).pairs + (paired value_of from to).orphans ≡ length to)
      × All IsForward (paired value_of from to).pairs
      × IsOnce (paired value_of from to).pairs
unfolding paired
paired-IsOnce value_of from to =
    let start : IsPaired 0 no_pairing = record {
      forward = tt;
      marked = tt;
      once = tt;
      counted = omega arith;
    } in
    let i =
      pair_all-IsPaired 0 value_of (sort_starts (collect_starts value_of from []))
        (sort_by by_time to) no_pairing start in
    (omega (arith, i.counted, length-sort_by by_time to), i.forward, i.once)
