-- ===== src/Base/Assoc.antt =====
-- JavaScript's `Map` with string keys: the entries in the order of their first insertion.
use Prim.Native.String.{String}
use mathlib.Core.Path.{◌≡◌, refl, ap}
use mathlib.Core.Bool.{Bool, false, ◌||◌}
use mathlib.Core.Option.{Option, none, some}
use mathlib.Core.Logic.{◌↔◌, inl, inr}
use mathlib.Core.List.{List, [], ◌∷◌}
use native.Mathlib.Omega.{arith}
use text.Mathlib.TextEquality.{eq_iff}
use tinyland_auth.Base.Tests.{if◌then◌else◌, Bool-cases}
use tinyland_auth.Base.Text.{◌==◌}

abbrev pub Assoc : Type 0 → Type 0
Assoc V = List (String × V)

module _ {V : Type 0} where
  -- `map.get(k)`
  unfoldable pub get : String → Assoc V → Option V
  get k [] = none
  get k ((j, v) ∷ m) = if j == k then some v else get k m

  -- `map.set(k, v)`: an existing key keeps its place.
  unfoldable pub put : String → V → Assoc V → Assoc V
  put k v [] = (k, v) ∷ []
  put k v ((j, w) ∷ m) = if j == k then (j, v) ∷ m else (j, w) ∷ put k v m

  -- `map.delete(k)`
  unfoldable pub remove : String → Assoc V → Assoc V
  remove k [] = []
  remove k ((j, w) ∷ m) = if j == k then m else (j, w) ∷ remove k m

  -- `map.has(k)`, which is also what `map.delete(k)` answers
  unfoldable pub has : String → Assoc V → Bool
  has k [] = false
  has k ((j, v) ∷ m) = j == k || has k m

  -- `Array.from(map.values())`
  unfoldable pub values : Assoc V → List V
  values [] = []
  values ((j, v) ∷ m) = v ∷ values m

  -- The loop `for (const [k, v] of map) if (test(v)) map.delete(k)`: what stays.
  unfoldable pub discard : (V → Bool) → Assoc V → Assoc V
  discard p [] = []
  discard p ((j, v) ∷ m) = if p v then discard p m else (j, v) ∷ discard p m

  -- No key twice.
  unfoldable pub IsMap : Assoc V → Type 0
  IsMap [] = Unit
  IsMap ((j, v) ∷ m) = (get j m ≡ none) × IsMap m

  pub get-put :
      (k j : String) (v : V) (m : Assoc V)
      → get j (put k v m) ≡ (if k == j then some v else get j m)
  unfolding get put
  get-put k j v [] = refl
  get-put k j v ((i, w) ∷ m) = ground (arith, eq_iff k j, eq_iff i k, eq_iff i j, get-put k j v m)

  pub get-remove :
      (k j : String) (m : Assoc V)
      → IsMap m
      → get j (remove k m) ≡ (if k == j then none else get j m)
  unfolding get remove IsMap
  get-remove k j [] h = ground arith
  get-remove k j ((i, w) ∷ m) h =
      ground (arith, eq_iff k j, eq_iff i k, eq_iff i j, get-remove k j m h.1)

  pub get-remove_ne : (k j : String) (m : Assoc V) → (k == j) ≡ false → get j (remove k m) ≡ get j m
  unfolding get remove
  get-remove_ne k j [] h = refl
  get-remove_ne k j ((i, w) ∷ m) h =
      ground (arith, eq_iff k j, eq_iff i k, eq_iff i j, get-remove_ne k j m h)

  pub remove_absent : (k : String) (m : Assoc V) → get k m ≡ none → remove k m ≡ m
  unfolding get remove
  remove_absent k [] h = refl
  remove_absent k ((i, w) ∷ m) h = elim (Bool-cases (i == k)) [
    | inl e ↦ ground arith
    | inr e ↦ rw e (ap (λ l. (i, w) ∷ l) (remove_absent k m (rw e at h)))
  ]

  pub has_lem : (k : String) (m : Assoc V) → (has k m ≡ false) ↔ (get k m ≡ none)
  unfolding has get
  has_lem k [] = ground arith
  has_lem k ((j, v) ∷ m) = ground (arith, has_lem k m)

  pub put-IsMap : (k : String) (v : V) (m : Assoc V) → IsMap m → IsMap (put k v m)
  unfolding put IsMap get
  put-IsMap k v [] h = (refl, tt)
  put-IsMap k v ((i, w) ∷ m) h =
      ground (arith, eq_iff i k, eq_iff k i, get-put k i v m, put-IsMap k v m h.1)

  pub remove-IsMap : (k : String) (m : Assoc V) → IsMap m → IsMap (remove k m)
  unfolding remove IsMap
  remove-IsMap k [] h = tt
  remove-IsMap k ((i, w) ∷ m) h =
      ground (arith, eq_iff i k, eq_iff k i, get-remove_ne k i m, remove-IsMap k m h.1)

  pub get-discard-none :
      (p : V → Bool) (j : String) (m : Assoc V) → get j m ≡ none → get j (discard p m) ≡ none
  unfolding get discard
  get-discard-none p j [] h = refl
  get-discard-none p j ((i, w) ∷ m) h = ground (arith, get-discard-none p j m)

  pub discard-IsMap : (p : V → Bool) (m : Assoc V) → IsMap m → IsMap (discard p m)
  unfolding discard IsMap
  discard-IsMap p [] h = tt
  discard-IsMap p ((i, w) ∷ m) h = ground (arith, get-discard-none p i m, discard-IsMap p m h.1)

  -- A lookup after `discard`: the entry is there exactly when its value is kept.
  pub get-discard :
      (p : V → Bool) (j : String) (m : Assoc V)
      → IsMap m
      → get j (discard p m)
        ≡ (elim (get j m) [ none ↦ none | some v ↦ if p v then none else some v ])
  unfolding get discard IsMap
  get-discard p j [] h = refl
  get-discard p j ((i, w) ∷ m) h =
      ground (arith, eq_iff i j, eq_iff j i, get-discard p j m h.1, get-discard-none p i m h.0)
