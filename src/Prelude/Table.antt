-- ===== src/Prelude/Table.antt =====
-- `Map` of JavaScript with text keys: its entries in insertion order. Setting a key that is there
-- keeps its place.
use mathlib.Core.Path.{◌≡◌, refl}
use mathlib.Core.Logic.{◌≢◌, inl, inr}
use mathlib.Core.Bool.{Bool, true, false, not}
use mathlib.Core.List.{List, [], ◌∷◌, ◌++◌, map, map-append}
use mathlib.Core.Option
use mathlib.Core.Option.{Option, none, some}
use native.Mathlib.Omega.{arith}
use nats_explorer.Prelude.Tests.{if◌then◌else◌, Bool-cases}
use nats_explorer.Prelude.Lists.{any, filter, All}
use nats_explorer.Prelude.Strings.{Text, text_beq, text_beq_iff, text_eq, ◌==◌}
use nats_explorer.Prelude.Keyed.{
  upsert-All, without-All, item_of, upsert, without, item_of-upsert, item_of-upsert_ne,
  item_of-without, item_of-without_ne,
}

module _ {ℓ} {V : Type ℓ} where
  abbrev pub entry_key : Text × V → Text
  entry_key e = e.0

  unfoldable pub get : Text → List (Text × V) → Option V
  get k m = Option.map (λ e. e.1) (item_of entry_key k m)

  unfoldable pub set : Text → V → List (Text × V) → List (Text × V)
  set k v m = upsert entry_key (k, v) m

  unfoldable pub delete : Text → List (Text × V) → List (Text × V)
  delete k m = without entry_key k m

  unfoldable pub has : Text → List (Text × V) → Bool
  unfolding text_beq
  has k m = any (λ e. e.0 == k) m

  pub get-set : (k : Text) (v : V) (m : List (Text × V)) → get k (set k v m) ≡ some v
  unfolding get set
  get-set k v m = rw (item_of-upsert entry_key (k, v) m)

  pub get-set_ne : (k j : Text) (v : V) (m : List (Text × V)) → k ≢ j → get j (set k v m) ≡ get j m
  unfolding get set
  get-set_ne k j v m h = rw (item_of-upsert_ne entry_key (k, v) m j h)

  pub get-delete : (k : Text) (m : List (Text × V)) → get k (delete k m) ≡ none
  unfolding get delete
  get-delete k m = rw (item_of-without entry_key k m)

  pub get-delete_ne : (k j : Text) (m : List (Text × V)) → k ≢ j → get j (delete k m) ≡ get j m
  unfolding get delete
  get-delete_ne k j m h = rw (item_of-without_ne entry_key k j m h)

-- What holds of every entry.
module _ {ℓ κ} {V : Type ℓ} (P : Text × V → Type κ) where
  pub set-All : (k : Text) (v : V) (m : List (Text × V)) → P (k, v) → All P m → All P (set k v m)
  unfolding set
  set-All k v m h a = upsert-All entry_key P (k, v) m h a

  pub delete-All : (k : Text) (m : List (Text × V)) → All P m → All P (delete k m)
  unfolding delete
  delete-All k m a = without-All entry_key P k m a

  get-All_from : (k : Text) (v : V) (m : List (Text × V)) → get k m ≡ some v → All P m → P (k, v)
  unfolding get
  get-All_from k v [] e a = cc
  get-All_from k v ((j, w) ∷ m) e a = elim (Bool-cases (j == k)) [
    | inl h ↦
        let value : some w ≡ some v = rw h at e in
        let same : w ≡ v = cc (value) in rw (same, (text_beq_iff j k).0 h) at a.0
    | inr h ↦ get-All_from k v m (rw h at e) a.1
  ]

  pub get-All : (k : Text) (v : V) (m : List (Text × V)) → get k m ≡ some v → All P m → P (k, v)
  get-All k v m e a = get-All_from k v m e a

module _ {ℓ} {V : Type ℓ} where
  abbrev pub keys : List (Text × V) → List Text
  keys m = map entry_key m

  present :
      (k : Text) (m : List (Text × V)) → any (λ e. entry_key e == k) m ≡ any (λ j. j == k) (keys m)
  present k [] = refl
  present k ((j, v) ∷ m) = rw (present k m)

  keys-replaced :
      (k : Text) (v : V) (m : List (Text × V))
      → keys (map (λ e. if entry_key e == k then (k, v) else e) m) ≡ keys m
  keys-replaced k v [] = refl
  keys-replaced k v ((j, w) ∷ m) = ground (arith, text_beq_iff j k, keys-replaced k v m)

  pub keys-set_present :
      (k : Text) (v : V) (m : List (Text × V))
      → any (λ j. j == k) (keys m) ≡ true
      → keys (set k v m) ≡ keys m
  unfolding set upsert
  keys-set_present k v m h = rw (present k m, h) (keys-replaced k v m)

  pub keys-set_new :
      (k : Text) (v : V) (m : List (Text × V))
      → any (λ j. j == k) (keys m) ≡ false
      → keys (set k v m) ≡ keys m ++ k ∷ []
  unfolding set upsert
  keys-set_new k v m h = rw (present k m, h) (map-append entry_key m ((k, v) ∷ []))

  pub keys-delete :
      (k : Text) (m : List (Text × V)) → keys (delete k m) ≡ filter (λ j. not (j == k)) (keys m)
  unfolding delete without
  keys-delete k [] = refl
  keys-delete k ((j, v) ∷ m) = ground (arith, keys-delete k m)

  pub get_present :
      (k : Text) (v : V) (m : List (Text × V))
      → get k m ≡ some v
      → any (λ j. j == k) (keys m) ≡ true
  unfolding get
  get_present k v [] e = cc
  get_present k v ((j, w) ∷ m) e = elim (Bool-cases (j == k)) [
    | inl h ↦ rw h
    | inr h ↦ rw h (get_present k v m (rw h at e))
  ]

-- A key is there when a value is found for it.
module _ {ℓ} {V : Type ℓ} where
  pub get_absent : (k : Text) (m : List (Text × V)) → has k m ≡ false → get k m ≡ none
  unfolding has get
  get_absent k [] h = refl
  get_absent k (e ∷ m) h = elim (Bool-cases (e.0 == k)) [
    | inl t ↦ absurd (cc (rw t at h))
    | inr t ↦ rw t (get_absent k m (rw t at h))
  ]

  pub get_found : (k : Text) (m : List (Text × V)) → has k m ≡ true → get k m ≢ none
  unfolding has get
  get_found k [] h e = absurd (cc (h))
  get_found k (x ∷ m) h e = elim (Bool-cases (x.0 == k)) [
    | inl t ↦ absurd (cc (rw t at e))
    | inr t ↦ get_found k m (rw t at h) (rw t at e)
  ]
