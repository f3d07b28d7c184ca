-- ===== src/Base/Lists.antt =====
-- Lists under Boolean tests (JavaScript's filter, find, some and every), measured by native numbers.
use Prim.Native.Nat.{ℕ, zero, suc, ◌+◌, ◌-◌, ◌≤◌}
use mathlib.Core.Path.{◌≡◌, refl, ap}
use mathlib.Core.Logic.{◌↔◌, ◌⊎◌, inl, inr}
use mathlib.Core.Bool.{Bool, true, false, ◌&&◌, ◌||◌}
use mathlib.Core.Option.{Option, none, some}
use mathlib.Core.List.{List, [], ◌∷◌, ◌++◌}
use native.Mathlib.Omega.{arith}
use tinyland_auth.Base.Tests.{if◌then◌else◌, Bool-cases}

module _ {ℓ} {A : Type ℓ} where
  abbrev pub length : List A → ℕ
  length [] = 0
  length (x ∷ xs) = suc (length xs)

  abbrev pub take : ℕ → List A → List A
  take zero xs = []
  take (suc n) [] = []
  take (suc n) (x ∷ xs) = x ∷ take n xs

  abbrev pub drop : ℕ → List A → List A
  drop zero xs = xs
  drop (suc n) [] = []
  drop (suc n) (x ∷ xs) = drop n xs

  abbrev pub filter : (A → Bool) → List A → List A
  filter p [] = []
  filter p (x ∷ xs) = if p x then x ∷ filter p xs else filter p xs

  abbrev pub find : (A → Bool) → List A → Option A
  find p [] = none
  find p (x ∷ xs) = if p x then some x else find p xs

  abbrev pub any : (A → Bool) → List A → Bool
  any p [] = false
  any p (x ∷ xs) = p x || any p xs

  abbrev pub all : (A → Bool) → List A → Bool
  all p [] = true
  all p (x ∷ xs) = p x && all p xs

  pub length-append : (xs ys : List A) → length (xs ++ ys) ≡ length xs + length ys
  length-append [] ys = omega arith
  length-append (x ∷ xs) ys = omega (arith, length-append xs ys)

  pub append_nil : (xs : List A) → xs ++ [] ≡ xs
  append_nil [] = refl
  append_nil (x ∷ xs) = ap (◌∷◌ x) (append_nil xs)

  pub append_assoc : (xs ys zs : List A) → (xs ++ ys) ++ zs ≡ xs ++ (ys ++ zs)
  append_assoc [] ys zs = refl
  append_assoc (x ∷ xs) ys zs = ap (◌∷◌ x) (append_assoc xs ys zs)

  pub length-drop : (n : ℕ) (xs : List A) → length (drop n xs) ≡ length xs - n
  length-drop zero xs = omega arith
  length-drop (suc n) [] = omega arith
  length-drop (suc n) (x ∷ xs) = omega (arith, length-drop n xs)

  pub take-append-drop : (n : ℕ) (xs : List A) → take n xs ++ drop n xs ≡ xs
  take-append-drop zero xs = refl
  take-append-drop (suc n) [] = refl
  take-append-drop (suc n) (x ∷ xs) = ap (◌∷◌ x) (take-append-drop n xs)

  pub length-filter-le : (p : A → Bool) (xs : List A) → length (filter p xs) ≤ length xs
  length-filter-le p [] = omega arith
  length-filter-le p (x ∷ xs) = ground (arith, length-filter-le p xs)

module _ {A : Type 0} where
  -- Membership, by recursion on the list.
  abbrev pub In : A → List A → Type 0
  In a [] = ⊥
  In a (x ∷ xs) = (a ≡ x) ⊎ In a xs

  -- `filter` keeps exactly the members that pass.
  pub In-filter :
      (p : A → Bool) (a : A) (xs : List A) → In a (filter p xs) ↔ (In a xs × (p a ≡ true))
  In-filter p a [] = ground arith
  In-filter p a (x ∷ xs) = ground (arith, In-filter p a xs)

  pub In-append : (a : A) (xs ys : List A) → In a (xs ++ ys) ↔ (In a xs ⊎ In a ys)
  In-append a [] ys = ground arith
  In-append a (x ∷ xs) ys = ground (arith, In-append a xs ys)

  any_intro : (p : A → Bool) (a : A) (xs : List A) → In a xs → p a ≡ true → any p xs ≡ true
  any_intro p a [] m e = absurd m
  any_intro p a (x ∷ xs) m e = ground (arith, any_intro p a xs)

  any_elim : (p : A → Bool) (xs : List A) → any p xs ≡ true → (a : A) × In a xs × (p a ≡ true)
  any_elim p [] h = cc
  any_elim p (x ∷ xs) h = elim (Bool-cases (p x)) [
    | inl e ↦ (x, inl refl, e)
    | inr e ↦ let (a, m, q) = any_elim p xs (ground arith) in (a, inr m, q)
  ]

  pub any_iff :
      (p : A → Bool) (xs : List A) → (any p xs ≡ true) ↔ ((a : A) × In a xs × (p a ≡ true))
  any_iff p xs = (any_elim p xs, λ h. any_intro p h.0 xs h.1 h.2)

  all_elim : (p : A → Bool) (a : A) (xs : List A) → In a xs → all p xs ≡ true → p a ≡ true
  all_elim p a [] m h = absurd m
  all_elim p a (x ∷ xs) m h = ground (arith, all_elim p a xs)

  all_intro : (p : A → Bool) (xs : List A) → ((a : A) → In a xs → p a ≡ true) → all p xs ≡ true
  all_intro p [] h = refl
  all_intro p (x ∷ xs) h = rw (h x (inl refl)) (all_intro p xs (λ a m. h a (inr m)))

  pub all_iff : (p : A → Bool) (xs : List A) → (all p xs ≡ true) ↔ ((a : A) → In a xs → p a ≡ true)
  all_iff p xs = (λ h a m. all_elim p a xs m h, all_intro p xs)

  pub find-none : (p : A → Bool) (a : A) (xs : List A) → find p xs ≡ none → In a xs → p a ≡ false
  find-none p a [] h m = absurd m
  find-none p a (x ∷ xs) h m = ground (arith, find-none p a xs)

  pub find-some : (p : A → Bool) (a : A) (xs : List A) → find p xs ≡ some a → In a xs × (p a ≡ true)
  find-some p a [] h = cc
  find-some p a (x ∷ xs) h = ground (arith, find-some p a xs)

module _ {A : Type 0} where
  pub filter-append :
      (p : A → Bool) (xs ys : List A) → filter p (xs ++ ys) ≡ filter p xs ++ filter p ys
  filter-append p [] ys = refl
  filter-append p (x ∷ xs) ys = ground (arith, filter-append p xs ys)

  -- Nothing passes a test that every entry fails.
  pub filter_nothing :
      (p : A → Bool) (xs : List A) → ((a : A) → In a xs → p a ≡ false) → filter p xs ≡ []
  filter_nothing p [] h = refl
  filter_nothing p (x ∷ xs) h = rw (h x (inl refl)) (filter_nothing p xs (λ a m. h a (inr m)))

  pub filter_everything :
      (p : A → Bool) (xs : List A) → ((a : A) → In a xs → p a ≡ true) → filter p xs ≡ xs
  filter_everything p [] h = refl
  filter_everything p (x ∷ xs) h =
      rw (h x (inl refl)) (ap (◌∷◌ x) (filter_everything p xs (λ a m. h a (inr m))))
