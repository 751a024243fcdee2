-- ===== src/Async/Cache.antt =====
-- The size of the cache.
use nats_explorer.Prelude.{
  ℕ, ◌+◌, ◌≤◌, ◌<◌, Text, List, [], ◌∷◌, false, not, Option, none, some, ◌==◌, text_eq, leb, length,
  drop, any, filter, length-filter-le, length-drop, length-append, length-map, ◌≡◌, refl, ap, ◌∙◌,
  arith, inl, inr, Bool-cases, nat_beq,
}
use nats_explorer.Prelude.Table.{set, delete, keys, keys-set_new, keys-delete}
use nats_explorer.Async.{
  cache_max, remember, remember_under, Hook, HookEvent, skips, starts, answers, fails, sets,
  renders, answer_run, fail_run, set_data, step_hook, step_hooks, skip_run, start_run, render,
}

below_of : (n : ℕ) → leb cache_max n ≡ false → n < cache_max
below_of n h = ground arith

absent-filter :
    (k : Text) (ks : List Text) → any (λ j. j == k) (filter (λ j. not (j == k)) ks) ≡ false
absent-filter k [] = refl
absent-filter k (j ∷ ks) = elim (Bool-cases (j == k)) [
  | inl e ↦ rw e (absent-filter k ks)
  | inr e ↦ rw (e, e) (absent-filter k ks)
]

module _ {ℓ} {A : Type ℓ} where
  length-keys : (m : List (Text × A)) → length (keys m) ≡ length m
  length-keys m = length-map m _

  length-replaced :
      (key : Text) (value : A) (cache : List (Text × A))
      → length (set key value (delete key cache)) ≤ length cache + 1
  length-replaced key value cache =
      let left = filter (λ j. not (j == key)) (keys cache) in
      let absent : any (λ j. j == key) (keys (delete key cache)) ≡ false =
        ap (any (λ j. j == key)) (keys-delete key cache) ∙ absent-filter key (keys cache) in
      let grown : length (keys (set key value (delete key cache))) ≡ length left + 1 =
        ap length (keys-set_new key value (delete key cache) absent)
        ∙ length-append (keys (delete key cache)) (key ∷ [])
        ∙ ap (λ ks. length ks + 1) (keys-delete key cache) in
      omega (
        arith,
        grown,
        length-keys (set key value (delete key cache)),
        length-keys cache,
        length-filter-le (λ j. not (j == key)) (keys cache),
      )

  length-remember :
      (key : Text) (value : A) (cache : List (Text × A))
      → length cache ≤ cache_max
      → length (remember key value cache) ≤ cache_max
  unfolding remember
  length-remember key value cache h = elim (Bool-cases (leb cache_max (length cache))) [
    | inl e ↦ rw e (omega (arith, length-replaced key value (drop 1 cache), length-drop 1 cache, h))
    | inr e ↦ rw e (omega (arith, length-replaced key value cache, below_of (length cache) e))
  ]

  length-remember_under :
      (key : Option Text) (value : Option A) (cache : List (Text × A))
      → length cache ≤ cache_max
      → length (remember_under key value cache) ≤ cache_max
  length-remember_under none value cache h = h
  length-remember_under (some key) none cache h = h
  length-remember_under (some key) (some value) cache h = length-remember key value cache h

  step_hook-bound :
      (e : HookEvent A) (h : Hook A)
      → length h.cache ≤ cache_max
      → length (step_hook e h).cache ≤ cache_max
  unfolding step_hook answer_run fail_run set_data skip_run start_run render
  step_hook-bound skips h b = b
  step_hook-bound starts h b = b
  step_hook-bound (answers id result) h b = elim (Bool-cases (nat_beq id h.seq)) [
    | inl e ↦ rw e (length-remember_under h.key (some result) h.cache b)
    | inr e ↦ rw e b
  ]
  step_hook-bound (fails id error) h b = elim (Bool-cases (nat_beq id h.seq)) [
    | inl e ↦ rw e b
    | inr e ↦ rw e b
  ]
  step_hook-bound (sets next) h b = length-remember_under h.key next h.cache b
  step_hook-bound (renders key) h b = b

  -- Through whatever a hook goes, the cache of results keeps at most 300 entries.
  step_hooks-bound :
      (es : List (HookEvent A)) (h : Hook A)
      → length h.cache ≤ cache_max
      → length (step_hooks es h).cache ≤ cache_max
  unfolding step_hooks
  step_hooks-bound [] h b = b
  step_hooks-bound (e ∷ es) h b = step_hooks-bound es (step_hook e h) (step_hook-bound e h b)
