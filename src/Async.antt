-- ===== src/Async.antt =====
-- client/src/lib/useAsync.ts: the hook that runs a loader, and the cache that the hooks share. The calls
-- of the hook's callbacks are events; a loader's result is a value of the type `A`.
pub mod Cache
pub mod Latest
use nats_explorer.Prelude.{
  ℕ, ◌+◌, Text, List, [], ◌∷◌, Bool, true, false, Option, none, some, if◌then◌else◌, nat_beq, leb,
  length, drop,
}
use nats_explorer.Prelude.Table.{get, set, delete}

abbrev pub cache_max : ℕ
cache_max = 300

module _ {ℓ} {A : Type ℓ} where
  -- The first entry is the one that was set first.
  unfoldable pub remember : Text → A → List (Text × A) → List (Text × A)
  unfolding set delete
  remember key value cache =
      let kept = if leb cache_max (length cache) then drop 1 cache else cache in
      set key value (delete key kept)

  abbrev pub remember_under : Option Text → Option A → List (Text × A) → List (Text × A)
  remember_under none value cache = cache
  remember_under (some key) none cache = cache
  remember_under (some key) (some value) cache = remember key value cache

  abbrev pub cached : Option Text → List (Text × A) → Option A
  cached none cache = none
  cached (some key) cache = get key cache

  abbrev pub is_none : Option A → Bool
  is_none none = true
  is_none (some a) = false

  abbrev pub or_kept : Option A → Option A → Option A
  or_kept none old = old
  or_kept (some a) old = some a

-- The state of one hook with the shared cache; `shown` is its `data`.
pub record Hook {ℓ} (A : Type ℓ) : Type ℓ where
  pub shown : Option A
  pub error : Option Text
  pub loading : Bool
  pub initial : Bool
  pub seq : ℕ
  pub key : Option Text
  pub cache : List (Text × A)

pub data HookEvent {ℓ} (A : Type ℓ) : Type ℓ where
  skips : HookEvent A
  starts : HookEvent A
  answers : (id : ℕ) → A → HookEvent A
  fails : (id : ℕ) (error : Text) → HookEvent A
  sets : Option A → HookEvent A
  renders : (key : Option Text) → HookEvent A

module _ {ℓ} {A : Type ℓ} where
  -- The first render.
  unfoldable pub mounted : Option Text → List (Text × A) → Hook A
  unfolding get
  mounted key cache = record {
    shown = cached key cache;
    error = none;
    loading = false;
    initial = is_none (cached key cache);
    seq = 0;
    key = key;
    cache = cache;
  }

  -- `run` when the loader gives no promise.
  unfoldable pub skip_run : Hook A → Hook A
  skip_run h = record h {
    seq = h.seq + 1;
    shown = none;
    error = none;
    loading = false;
    initial = true;
  }

  -- `run` up to the promise, the number of which is then `seq`.
  unfoldable pub start_run : Hook A → Hook A
  start_run h = record h { seq = h.seq + 1; loading = true }

  unfoldable pub answer_run : ℕ → A → Hook A → Hook A
  unfolding remember
  answer_run id result h =
      if nat_beq id h.seq
      then record h {
        cache = remember_under h.key (some result) h.cache;
        shown = some result;
        error = none;
        loading = false;
        initial = false;
      }
      else h

  unfoldable pub fail_run : ℕ → Text → Hook A → Hook A
  fail_run id error h =
      if nat_beq id h.seq
      then record h { error = some error; loading = false; initial = false }
      else h

  -- `setData`, the new value being what the updater gives.
  unfoldable pub set_data : Option A → Hook A → Hook A
  unfolding remember
  set_data next h = record h { cache = remember_under h.key next h.cache; shown = next }

  -- The render and the effect when what the loader depends on changes, up to `run`.
  unfoldable pub render : Option Text → Hook A → Hook A
  unfolding get
  render key h = record h {
    key = key;
    shown = or_kept (cached key h.cache) h.shown;
    initial = is_none (cached key h.cache);
  }

  unfoldable pub step_hook : HookEvent A → Hook A → Hook A
  unfolding skip_run start_run answer_run fail_run set_data render
  step_hook skips h = skip_run h
  step_hook starts h = start_run h
  step_hook (answers id result) h = answer_run id result h
  step_hook (fails id error) h = fail_run id error h
  step_hook (sets next) h = set_data next h
  step_hook (renders key) h = render key h

  unfoldable pub step_hooks : List (HookEvent A) → Hook A → Hook A
  step_hooks [] h = h
  step_hooks (e ∷ es) h = step_hooks es (step_hook e h)
