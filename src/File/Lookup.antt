-- ===== src/File/Lookup.antt =====
-- Looking sessions up by id in a list that `assertStoredSessions` accepts: src/storage/file.ts and
-- src/storage/session-policy.ts.
use tinyland_auth.Base.{
  Bool, true, false, not, String, List, [], ◌∷◌, ◌++◌, ◌==◌, ◌≡◌, none, some, filter, includes,
  if◌then◌else◌, arith, refl, sym, ap, subst, inl, inr, Bool-cases, ◌∙◌, eq_iff, eq_refl,
}
use tinyland_auth.Types.{Session}
use tinyland_auth.Sessions.Policy.{all_stored}
use tinyland_auth.Sessions.Storage.{unless}
use tinyland_auth.File.{change_first, remove_first}
use tinyland_auth.File.Abstract.{view_of, has_session_id, stored, dropped}

-- An id that was met before is not met again.
pub met_not_found :
    (ids : List String) (ss : List Session) (id : String)
    → all_stored ids ss ≡ true
    → includes id ids ≡ true
    → view_of ss id ≡ none
unfolding all_stored
met_not_found ids [] id h m = refl
met_not_found ids (s ∷ ss) id h m = elim (Bool-cases (s.id == id)) [
  | inl e ↦ ground (arith, eq_iff s.id id)
  | inr e ↦ rw e (met_not_found (s.id ∷ ids) ss id (ground arith) (ground arith))
]

-- The last session's id is none of those met before.
pub last_not_met :
    (ids : List String) (ss : List Session) (s : Session)
    → all_stored ids (ss ++ s ∷ []) ≡ true
    → includes s.id ids ≡ false
unfolding all_stored
last_not_met ids [] s h = ground arith
last_not_met ids (x ∷ xs) s h =
    let rest = last_not_met (x.id ∷ ids) xs s (ground arith) in ground arith

pub view_append :
    (ids : List String) (ss : List Session) (s : Session) (j : String)
    → all_stored ids (ss ++ s ∷ []) ≡ true
    → view_of (ss ++ s ∷ []) j ≡ stored s (view_of ss) j
unfolding all_stored
view_append ids [] s j h = refl
view_append ids (x ∷ xs) s j h =
    let rest = view_append (x.id ∷ ids) xs s j (ground arith) in
    let fresh = last_not_met (x.id ∷ ids) xs s (ground arith) in
    elim (Bool-cases (x.id == j)) [
      | inl e ↦ ground (arith, eq_iff x.id j, eq_iff s.id j, eq_iff s.id x.id)
      | inr e ↦ rw e rest
    ]

pub of_eq : (a b : String) → (a == b) ≡ true → a ≡ b
of_eq a b e = ground (arith, eq_iff a b)

eq_left : (a b c : String) → (a == b) ≡ true → (b == c) ≡ (a == c)
eq_left a b c e = ap (λ x. x == c) (sym (of_eq a b e))

neq_right : (a b c : String) → (a == b) ≡ false → (a == c) ≡ true → (b == c) ≡ false
neq_right a b c e f = ground (arith, eq_iff a b, eq_iff a c, eq_iff b c)

pub view_filter :
    (keep : Session → Bool) (ids : List String) (ss : List Session) (j : String)
    → all_stored ids ss ≡ true
    → view_of (filter keep ss) j ≡ unless (λ s. not (keep s)) (view_of ss j)
unfolding all_stored
view_filter keep ids [] j h = refl
view_filter keep ids (s ∷ ss) j h =
    let rest = view_filter keep (s.id ∷ ids) ss j (ground arith) in
    let gone = met_not_found (s.id ∷ ids) ss s.id (ground arith) (ground (arith, eq_refl s.id)) in
    elim (Bool-cases (s.id == j)) [
      | inl e ↦ elim (Bool-cases (keep s)) [
        | inl k ↦ rw (e, k, e) refl
        | inr k ↦
            rw (e, k)
              (rest
                ∙ ap (λ o. unless (λ x. not (keep x)) o)
                    (subst (λ i. view_of ss i ≡ none) (of_eq s.id j e) gone))
      ]
      | inr e ↦ elim (Bool-cases (keep s)) [ inl k ↦ rw (e, k, e) rest | inr k ↦ rw (e, k) rest ]
    ]

found_first :
    (id j : String) (s : Session) (ss : List Session)
    → (s.id == id) ≡ true
    → view_of ss s.id ≡ none
    → view_of ss j ≡ dropped id (view_of (s ∷ ss)) j
found_first id j s ss e gone = elim (Bool-cases (s.id == j)) [
  | inl f ↦ rw (eq_left s.id id j e, f) (subst (λ i. view_of ss i ≡ none) (of_eq s.id j f) gone)
  | inr f ↦ rw (eq_left s.id id j e, f) refl
]

pub view_remove :
    (id : String) (ids : List String) (ss : List Session) (j : String)
    → all_stored ids ss ≡ true
    → view_of (remove_first (has_session_id id) ss) j ≡ dropped id (view_of ss) j
unfolding all_stored
view_remove id ids [] j h = ground arith
view_remove id ids (s ∷ ss) j h =
    let gone = met_not_found (s.id ∷ ids) ss s.id (ground arith) (ground (arith, eq_refl s.id)) in
    let rest = view_remove id (s.id ∷ ids) ss j (ground arith) in
    elim (Bool-cases (s.id == id)) [
      | inl e ↦ rw e (found_first id j s ss e gone)
      | inr e ↦ rw e (elim (Bool-cases (s.id == j)) [
        | inl f ↦ rw (f, neq_right s.id id j e f) refl
        | inr f ↦ rw f rest
      ])
    ]

some_of : {A : Type 0} {x y : A} → some x ≡ some y → x ≡ y
some_of h = cc

none-some : {A : Type 0} {x : A} → none ≡ some x → ⊥
none-some h = ground arith

changed_tail :
    (id : String) (change : Session → Session) (more : List String) (x : Session)
    (xs : List Session)
    → (x.id == id) ≡ false
    → all_stored more (change_first (has_session_id id) change (x ∷ xs)) ≡ true
    → all_stored (x.id ∷ more) (change_first (has_session_id id) change xs) ≡ true
unfolding all_stored
changed_tail id change more x xs e g = ground arith

pub view_change :
    (id : String) (change : Session → Session) (s : Session) (ids more : List String)
    (ss : List Session) (j : String)
    → all_stored ids ss ≡ true
    → view_of ss id ≡ some s
    → all_stored more (change_first (has_session_id id) change ss) ≡ true
    → view_of (change_first (has_session_id id) change ss) j
      ≡ stored (change s) (dropped id (view_of ss)) j
unfolding all_stored
view_change id change s ids more [] j h found g = ground arith
view_change id change s ids more (x ∷ xs) j h found g =
    let gone = met_not_found (x.id ∷ ids) xs x.id (ground arith) (ground (arith, eq_refl x.id)) in
    elim (Bool-cases (x.id == id)) [
      | inl e ↦ rw e (
          ap (λ o. if (change x).id == j then some (change x) else o) (found_first id j x xs e gone)
          ∙ ap (λ y. stored (change y) (dropped id (view_of (x ∷ xs))) j) (some_of (rw e at found)))
      | inr e ↦
          let after =
            met_not_found (x.id ∷ more) (change_first (has_session_id id) change xs) x.id
              (changed_tail id change more x xs e g) (ground (arith, eq_refl x.id)) in
          let rest =
            view_change id change s (x.id ∷ ids) (x.id ∷ more) xs j (ground arith) (rw e at found)
              (changed_tail id change more x xs e g) in
          rw e (elim (Bool-cases (x.id == j)) [
            | inr f ↦ rw f rest
            | inl f ↦
                let none_there =
                  subst (λ i. view_of (change_first (has_session_id id) change xs) i ≡ none)
                    (of_eq x.id j f) after in
                elim (Bool-cases ((change s).id == j)) [
                  | inl taken ↦
                      absurd (none-some {x = change s} (sym none_there ∙ (rest ∙ rw taken refl)))
                  | inr free ↦ rw (f, free, neq_right x.id id j e f) refl
                ]
          ])
    ]
