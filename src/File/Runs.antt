-- ===== src/File/Runs.antt =====
-- Sequences of session operations of src/storage/file.ts.
use tinyland_auth.Base.{
  Bool, true, false, not, ◌&&◌, String, List, [], ◌∷◌, ◌≡◌, Option, none, some, arith, refl, ap,
  inl, inr, ◌∙◌,
}
use tinyland_auth.Types.{Session, merge_session}
use tinyland_auth.Sessions.Policy.{is_owned}
use tinyland_auth.Sessions.Storage.{unless}
use tinyland_auth.File.{Files, Writing}
use tinyland_auth.File.Sessions.{new_session, lives_on}
use tinyland_auth.File.Abstract.{
  SessionCall, creating, updating, deleting, deleting_of, cleaning, called, View, view, stored,
  dropped, moved, effect,
}
use tinyland_auth.File.Refinement.{call-Refines}

-- Calls one after the other: whether all of them answer, and the files after them.
abbrev pub run : List (Writing × SessionCall) → Files → Bool × Files
run [] files = (true, files)
run ((w, call) ∷ more) files =
    let after = called w call files in (after.0 && (run more after.1).0, (run more after.1).1)

-- Their effects on the abstract store.
abbrev pub effects : List (Writing × SessionCall) → View → View
effects [] m = m
effects ((w, call) ∷ more) m = effects more (effect call m)

abbrev Same : View → View → Type 0
Same m n = (j : String) → m j ≡ n j

moved-Same :
    (id : String) (o : Option Session) (updates : _) (m n : View)
    → Same m n
    → Same (moved id o updates m) (moved id o updates n)
moved-Same id none updates m n h = h
moved-Same id (some s) updates m n h = λ j.
    ap (λ o. stored (merge_session s updates) (λ i. o) j) (ap (λ o. dropped id (λ i. o) j) (h j))

effect-Same : (call : SessionCall) (m n : View) → Same m n → Same (effect call m) (effect call n)
effect-Same (creating max_age id now user_id user metadata) m n h =
    λ j. ap (λ o. stored (new_session max_age id now user_id user metadata) (λ i. o) j) (h j)
effect-Same (updating id updates) m n h =
    λ j. ap (λ o. moved id o updates m j) (h id) ∙ moved-Same id (n id) updates m n h j
effect-Same (deleting id) m n h = λ j. ap (λ o. dropped id (λ i. o) j) (h j)
effect-Same (deleting_of user_id) m n h = λ j. ap (unless (is_owned user_id)) (h j)
effect-Same (cleaning now) m n h = λ j. ap (unless (λ s. not (lives_on now s))) (h j)

effects-Same :
    (calls : List (Writing × SessionCall)) (m n : View)
    → Same m n
    → Same (effects calls m) (effects calls n)
effects-Same [] m n h = h
effects-Same ((w, call) ∷ more) m n h =
    effects-Same more (effect call m) (effect call n) (effect-Same call m n h)

refused : (a b : Bool) → a ≡ false → (a && b) ≡ true → ⊥
refused a b e h = ground arith

-- The files after calls that all answer show what the calls do to the abstract store.
pub run_refines :
    (calls : List (Writing × SessionCall)) (files : Files)
    → (run calls files).0 ≡ true
    → (j : String) → view (run calls files).1 j ≡ effects calls (view files) j
run_refines [] files h j = refl
run_refines ((w, call) ∷ more) files h j = elim (call-Refines w call files) [
  | inr failed ↦ absurd (
      refused (called w call files).0 (run more (called w call files).1).0 (ap (λ x. x.0) failed) h)
  | inl (before, stored_after, shows) ↦
      run_refines more (called w call files).1 (ground arith) j
      ∙ effects-Same more (view (called w call files).1) (effect call (view files)) shows j
]
