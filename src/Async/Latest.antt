-- ===== src/Async/Latest.antt =====
-- Runs of a loader that end late.
use nats_explorer.Prelude.{
  ℕ, ◌+◌, ◌≤◌, List, [], ◌∷◌, ◌++◌, true, false, none, some, nat_beq, ◌≡◌, refl, ap, ◌∙◌, arith,
  All,
}
use nats_explorer.Async.{
  remember_under, Hook, HookEvent, skips, starts, answers, fails, sets, renders, start_run,
  answer_run, fail_run, step_hook, step_hooks,
}

not_latest : (id n : ℕ) → id ≤ n → nat_beq id (n + 1) ≡ false
not_latest id n h = ground arith

latest : (n : ℕ) → nat_beq n n ≡ true
latest n = ground arith

module _ {ℓ} {A : Type ℓ} where
  -- The end of a run up to the `n`-th.
  abbrev pub EndsBy : ℕ → HookEvent A → Type 0
  EndsBy n (answers id result) = id ≤ n
  EndsBy n (fails id error) = id ≤ n
  EndsBy n e = ⊥

  step_hook-late :
      (n : ℕ) (e : HookEvent A) (h : Hook A) → h.seq ≡ n + 1 → EndsBy n e → step_hook e h ≡ h
  unfolding step_hook answer_run fail_run
  step_hook-late n (answers id result) h s l = rw (s, not_latest id n l) refl
  step_hook-late n (fails id error) h s l = rw (s, not_latest id n l) refl
  step_hook-late n skips h s l = absurd l
  step_hook-late n starts h s l = absurd l
  step_hook-late n (sets next) h s l = absurd l
  step_hook-late n (renders key) h s l = absurd l

  step_hooks-late :
      (n : ℕ) (es : List (HookEvent A)) (rest : List (HookEvent A)) (h : Hook A)
      → h.seq ≡ n + 1
      → All (EndsBy n) es
      → step_hooks (es ++ rest) h ≡ step_hooks rest h
  unfolding step_hooks
  step_hooks-late n [] rest h s l = refl
  step_hooks-late n (e ∷ es) rest h s l =
      ap (step_hooks (es ++ rest)) (step_hook-late n e h s l.0) ∙ step_hooks-late n es rest h s l.1

  answer_run-latest :
      (result : A) (h : Hook A)
      → answer_run h.seq result h ≡ record h {
        cache = remember_under h.key (some result) h.cache;
        shown = some result;
        error = none;
        loading = false;
        initial = false;
      }
  unfolding answer_run
  answer_run-latest result h = rw (latest h.seq) refl

  -- After a run has started, the ends of all earlier runs, answers and failures in any number and order,
  -- change nothing: when the run's own answer comes, exactly its result is shown, without an error, and kept
  -- under the hook's key.
  pub step_hooks-latest :
      (h : Hook A) (es : List (HookEvent A)) (result : A)
      → All (EndsBy h.seq) es
      → step_hooks (starts ∷ (es ++ answers (h.seq + 1) result ∷ [])) h ≡ record h {
        seq = h.seq + 1;
        cache = remember_under h.key (some result) h.cache;
        shown = some result;
        error = none;
        loading = false;
        initial = false;
      }
  unfolding step_hooks step_hook start_run
  step_hooks-latest h es result late =
      step_hooks-late h.seq es (answers (h.seq + 1) result ∷ []) (start_run h) refl late
      ∙ answer_run-latest result (start_run h)
