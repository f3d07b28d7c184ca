-- ===== src/File/Refinement.antt =====
-- The session operations of src/storage/file.ts implement the operations on the abstract store.
use tinyland_auth.Base.{
  ℕ, Bool, true, false, not, String, List, [], ◌==◌, ◌≡◌, Option, none, some, Result, ok, err,
  arith, refl, sym, ap, subst, inl, inr, ◌⊎◌, Bool-cases, Option-cases, Result-cases, ◌∙◌,
}
use tinyland_auth.Types.{Session, SessionUpdates, merge_session}
use tinyland_auth.Sessions.Policy.{all_stored, assert_stored_sessions, is_foreign, is_owned}
use tinyland_auth.Sessions.Storage.{unless}
use tinyland_auth.File.{Files, Writing, write_json_file, when_ok}
use tinyland_auth.File.Sessions.{
  read_sessions, store_sessions, mutate_sessions, next_sessions, new_session, insert_session,
  create_session, updated_sessions, update_session, without_session, delete_session, keep_sessions,
  delete_user_sessions, cleanup_expired_sessions, lives_on,
}
use tinyland_auth.File.Abstract.{
  SessionCall, creating, updating, deleting, deleting_of, cleaning, called, answers, View, view_of,
  view, stored, dropped, moved, effect,
}
use tinyland_auth.File.Lookup.{of_eq, view_append, view_filter, view_remove, view_change}

module _ {A : Type 0} (w : Writing) (operation : List Session → Result (List Session × A)) where
  -- A mutation stores what its operation gives, or fails and changes nothing.
  abbrev pub Mutates : Files → Type 0
  Mutates files =
      ((next : List Session) × (value : A) × (operation files.sessions ≡ ok (next, value))
        × (all_stored [] files.sessions ≡ true)
        × (all_stored [] next ≡ true)
        × ((answers (mutate_sessions w operation files)).1.sessions ≡ next))
      ⊎ (answers (mutate_sessions w operation files) ≡ (false, files))

  pub mutate_cases : (files : Files) → Mutates files
  unfolding mutate_sessions read_sessions assert_stored_sessions store_sessions when_ok
      write_json_file
  mutate_cases files = elim (Bool-cases (all_stored [] files.sessions)) [
    | inr e ↦ inr (rw (e, mutate_sessions, read_sessions, assert_stored_sessions) refl)
    | inl e ↦ elim (Result-cases (operation files.sessions)) [
      | inl (m, f) ↦ inr (rw (e, mutate_sessions, read_sessions, assert_stored_sessions, f) refl)
      | inr (next, f) ↦ elim (Bool-cases (all_stored [] next.0)) [
        | inr g ↦ inr (
            rw (e, mutate_sessions, read_sessions, assert_stored_sessions, f, store_sessions, g)
              refl)
        | inl g ↦ elim (Bool-cases w.renamed) [
          | inr r ↦ inr (
              rw
                (e, mutate_sessions, read_sessions, assert_stored_sessions, f, store_sessions, g, r)
                refl)
          | inl r ↦ elim (Bool-cases w.synced) [
            | inr d ↦ inl (
              next.0,
              next.1,
              f,
              e,
              g,
              rw
                  (
                    e, mutate_sessions, read_sessions, assert_stored_sessions, f, store_sessions, g,
                    r, d,
                  )
                  refl,
            )
            | inl d ↦ inl (
              next.0,
              next.1,
              f,
              e,
              g,
              rw
                  (
                    e, mutate_sessions, read_sessions, assert_stored_sessions, f, store_sessions, g,
                    r, d,
                  )
                  refl,
            )
          ]
        ]
      ]
    ]
  ]

-- A call has its effect on the store, or it fails and changes nothing.
abbrev pub Refines : Files → (View → View) → Bool × Files → Type 0
Refines files effect_of after =
    ((all_stored [] files.sessions ≡ true)
      × (all_stored [] after.1.sessions ≡ true)
      × ((j : String) → view after.1 j ≡ effect_of (view files) j))
    ⊎ (after ≡ (false, files))

-- A mutation refines an effect when its operation does.
mutate-Refines :
    {A : Type 0} (w : Writing) (operation : List Session → Result (List Session × A))
    (effect_of : View → View) (files : Files)
    → ((next : List Session) (value : A)
        → operation files.sessions ≡ ok (next, value)
        → all_stored [] files.sessions ≡ true
        → all_stored [] next ≡ true
        → (j : String) → view_of next j ≡ effect_of (view files) j)
    → Refines files effect_of (answers (mutate_sessions w operation files))
mutate-Refines w operation effect_of files implements = elim (mutate_cases w operation files) [
  | inr failed ↦ inr failed
  | inl (next, value, given, before, after, left) ↦ inl (
    before,
    subst (λ l. all_stored [] l ≡ true) (sym left) after,
    λ j. ap (λ l. view_of l j) left ∙ implements next value given before after j,
  )
]

ok_inj : {A : Type 0} {x y : A} → ok x ≡ ok y → x ≡ y
ok_inj h = cc

err_ok : {A : Type 0} {m : String} {x : A} → err m ≡ ok x → ⊥
err_ok h = ground arith

not-not : (b : Bool) → not (not b) ≡ b
not-not true = refl
not-not false = refl

absent_dropped : (id j : String) (m : View) → m id ≡ none → m j ≡ dropped id m j
absent_dropped id j m e = elim (Bool-cases (id == j)) [
  | inl f ↦ rw f (subst (λ i. m i ≡ none) (of_eq id j f) e)
  | inr f ↦ rw f refl
]

unless_same :
    (p q : Session → Bool) (o : Option Session)
    → ((s : Session) → p s ≡ q s)
    → unless p o ≡ unless q o
unless_same p q none h = refl
unless_same p q (some s) h = rw (h s) refl

filter_implements :
    (keep test : Session → Bool) (sessions next : List Session) (value : ℕ) (j : String)
    → ((s : Session) → not (keep s) ≡ test s)
    → ok (keep_sessions keep sessions) ≡ ok (next, value)
    → all_stored [] sessions ≡ true
    → view_of next j ≡ unless test (view_of sessions j)
unfolding keep_sessions
filter_implements keep test sessions next value j same h before =
    subst (λ l. view_of l j ≡ unless test (view_of sessions j)) (ap (λ x. x.0) (ok_inj h))
      (view_filter keep [] sessions j before
        ∙ unless_same (λ s. not (keep s)) test (view_of sessions j) same)

update_implements :
    (id : String) (updates : SessionUpdates) (sessions next : List Session) (value : Session)
    (j : String)
    → updated_sessions id updates sessions ≡ ok (next, value)
    → all_stored [] sessions ≡ true
    → all_stored [] next ≡ true
    → view_of next j ≡ moved id (view_of sessions id) updates (view_of sessions) j
unfolding updated_sessions
update_implements id updates sessions next value j h before after =
    elim (Option-cases (view_of sessions id)) [
      | inl e ↦ absurd (err_ok (rw (e, updated_sessions) at h))
      | inr (s, e) ↦
          let same = ap (λ x. x.0) (ok_inj (rw (e, updated_sessions) at h)) in
          subst (λ l. view_of l j ≡ moved id (view_of sessions id) updates (view_of sessions) j)
            same
            (rw e (
              view_change id (λ x. merge_session x updates) s [] [] sessions j before e
                (subst (λ l. all_stored [] l ≡ true) (sym same) after)))
    ]

delete_implements :
    (id : String) (sessions : List Session) (j : String)
    → all_stored [] sessions ≡ true
    → view_of (without_session id sessions).0 j ≡ dropped id (view_of sessions) j
unfolding without_session
delete_implements id sessions j h = elim (Option-cases (view_of sessions id)) [
  | inl e ↦ rw (e, without_session) (absent_dropped id j (view_of sessions) e)
  | inr (s, e) ↦ rw (e, without_session) (view_remove id [] sessions j h)
]

-- A call on the files does to the store what it does to the abstract store, which keeps ids apart, or
-- it fails and changes nothing.
pub call-Refines :
    (w : Writing) (call : SessionCall) (files : Files)
    → Refines files (effect call) (called w call files)
unfolding create_session insert_session next_sessions update_session delete_session
    delete_user_sessions cleanup_expired_sessions keep_sessions
call-Refines w (creating max_age id now user_id user metadata) files =
    mutate-Refines w _ (effect (creating max_age id now user_id user metadata)) files
      (λ next value h before after j.
        let same = ap (λ x. x.0) (ok_inj h) in
        subst
          (λ l.
            view_of l j ≡ stored (new_session max_age id now user_id user metadata) (view files) j)
          same
          (view_append [] files.sessions (new_session max_age id now user_id user metadata) j
            (subst (λ l. all_stored [] l ≡ true) (sym same) after)))
call-Refines w (updating id updates) files =
    mutate-Refines w (updated_sessions id updates) (effect (updating id updates)) files
      (λ next value h before after j.
        update_implements id updates files.sessions next value j h before after)
call-Refines w (deleting id) files =
    mutate-Refines w _ (effect (deleting id)) files (λ next value h before after j.
      subst (λ l. view_of l j ≡ dropped id (view files) j) (ap (λ x. x.0) (ok_inj h))
        (delete_implements id files.sessions j before))
call-Refines w (deleting_of user_id) files =
    mutate-Refines w _ (effect (deleting_of user_id)) files (λ next value h before after j.
      filter_implements (is_foreign user_id) (is_owned user_id) files.sessions next value j
        (λ s. not-not (is_owned user_id s)) h before)
call-Refines w (cleaning now) files =
    mutate-Refines w _ (effect (cleaning now)) files (λ next value h before after j.
      filter_implements (lives_on now) (λ s. not (lives_on now s)) files.sessions next value j
        (λ s. refl) h before)
