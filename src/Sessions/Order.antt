-- ===== src/Sessions/Order.antt =====
-- The sort of `boundedSessions` and the count of an id among sessions.
use tinyland_auth.Base.{
  ℕ, zero, suc, ◌+◌, ◌≤◌, Bool, true, false, String, List, [], ◌∷◌, ◌++◌, ◌==◌, ◌≡◌, refl, ◌↔◌, ◌⊎◌,
  inl, inr, arith, In, length, filter, take, drop, if◌then◌else◌,
}
use tinyland_auth.Types.{at, invalid, Session}
use tinyland_auth.Sessions.Policy.{insert_session, sort_sessions, sorts_before, is_date}

-- The milliseconds of a session's creation.
abbrev pub created_ms : Session → ℕ
created_ms s = elim s.created_at [ at ms ↦ ms | invalid ↦ 0 ]

-- All creation times are dates.
abbrev pub AreDated : List Session → Type 0
AreDated [] = Unit
AreDated (s ∷ ss) = (is_date s.created_at ≡ true) × AreDated ss

abbrev pub AtLeast : ℕ → List Session → Type 0
AtLeast n [] = Unit
AtLeast n (s ∷ ss) = (n ≤ created_ms s) × AtLeast n ss

-- Oldest first.
abbrev pub IsSorted : List Session → Type 0
IsSorted [] = Unit
IsSorted (s ∷ ss) = AtLeast (created_ms s) ss × IsSorted ss

AtLeast-mono : (m n : ℕ) (ss : List Session) → m ≤ n → AtLeast n ss → AtLeast m ss
AtLeast-mono m n [] h a = tt
AtLeast-mono m n (s ∷ ss) h a = (omega arith, AtLeast-mono m n ss h a.1)

sorts_before_le :
    (s t : Session)
    → is_date s.created_at ≡ true
    → is_date t.created_at ≡ true
    → sorts_before s t ≡ true
    → created_ms s ≤ created_ms t
unfolding sorts_before
sorts_before_le s t ds dt h = ground arith

sorts_after_le :
    (s t : Session)
    → is_date s.created_at ≡ true
    → is_date t.created_at ≡ true
    → sorts_before s t ≡ false
    → created_ms t ≤ created_ms s
unfolding sorts_before
sorts_after_le s t ds dt h = ground arith

insert-AtLeast :
    (n : ℕ) (s : Session) (ss : List Session)
    → n ≤ created_ms s
    → AtLeast n ss
    → AtLeast n (insert_session s ss)
unfolding insert_session
insert-AtLeast n s [] h a = (h, tt)
insert-AtLeast n s (t ∷ ts) h a = ground (arith, insert-AtLeast n s ts h a.1)

insert-AreDated :
    (s : Session) (ss : List Session)
    → is_date s.created_at ≡ true
    → AreDated ss
    → AreDated (insert_session s ss)
unfolding insert_session
insert-AreDated s [] h a = (h, tt)
insert-AreDated s (t ∷ ts) h a = ground (arith, insert-AreDated s ts h a.1)

insert-IsSorted :
    (s : Session) (ss : List Session)
    → is_date s.created_at ≡ true
    → AreDated ss
    → IsSorted ss
    → IsSorted (insert_session s ss)
unfolding insert_session
insert-IsSorted s [] ds d o = (tt, tt)
insert-IsSorted s (t ∷ ts) ds d o = ground (
  arith,
  sorts_before_le s t ds d.0,
  sorts_after_le s t ds d.0,
  AtLeast-mono (created_ms s) (created_ms t) ts,
  insert-AtLeast (created_ms t) s ts,
  insert-IsSorted s ts ds d.1 o.1,
)

sort-AreDated : (ss : List Session) → AreDated ss → AreDated (sort_sessions ss)
unfolding sort_sessions
sort-AreDated [] d = tt
sort-AreDated (s ∷ ss) d = insert-AreDated s (sort_sessions ss) d.0 (sort-AreDated ss d.1)

pub sort-IsSorted : (ss : List Session) → AreDated ss → IsSorted (sort_sessions ss)
unfolding sort_sessions
sort-IsSorted [] d = tt
sort-IsSorted (s ∷ ss) d =
    insert-IsSorted s (sort_sessions ss) d.0 (sort-AreDated ss d.1) (sort-IsSorted ss d.1)

AtLeast-In : (n : ℕ) (b : Session) (ss : List Session) → AtLeast n ss → In b ss → n ≤ created_ms b
AtLeast-In n b [] a m = absurd m
AtLeast-In n b (s ∷ ss) a (inl e) = rw e a.0
AtLeast-In n b (s ∷ ss) a (inr m) = AtLeast-In n b ss a.1 m

pub drop-In : (n : ℕ) (b : Session) (ss : List Session) → In b (drop n ss) → In b ss
drop-In zero b ss m = m
drop-In (suc n) b [] m = m
drop-In (suc n) b (s ∷ ss) m = inr (drop-In n b ss m)

-- What is cut off the front of a sorted list is no newer than what stays.
pub IsSorted-cut :
    (n : ℕ) (ss : List Session) (a b : Session)
    → IsSorted ss
    → In a (take n ss)
    → In b (drop n ss)
    → created_ms a ≤ created_ms b
IsSorted-cut zero ss a b o m k = absurd m
IsSorted-cut (suc n) [] a b o m k = absurd m
IsSorted-cut (suc n) (s ∷ ss) a b o (inl e) k =
    rw e (AtLeast-In (created_ms s) b ss o.0 (drop-In n b ss k))
IsSorted-cut (suc n) (s ∷ ss) a b o (inr m) k = IsSorted-cut n ss a b o.1 m k

-- How often an id occurs.
abbrev pub count_id : String → List Session → ℕ
count_id k [] = 0
count_id k (s ∷ ss) = (if s.id == k then 1 else 0) + count_id k ss

pub count_id-append :
    (k : String) (xs ys : List Session) → count_id k (xs ++ ys) ≡ count_id k xs + count_id k ys
count_id-append k [] ys = omega arith
count_id-append k (x ∷ xs) ys = omega (arith, count_id-append k xs ys)

count_id-insert :
    (k : String) (s : Session) (ss : List Session)
    → count_id k (insert_session s ss) ≡ count_id k (s ∷ ss)
unfolding insert_session
count_id-insert k s [] = refl
count_id-insert k s (t ∷ ts) = ground (arith, count_id-insert k s ts)

pub count_id-sort : (k : String) (ss : List Session) → count_id k (sort_sessions ss) ≡ count_id k ss
unfolding sort_sessions
count_id-sort k [] = refl
count_id-sort k (s ∷ ss) = omega (arith, count_id-insert k s (sort_sessions ss), count_id-sort k ss)

pub count_id-drop-le :
    (k : String) (n : ℕ) (ss : List Session) → count_id k (drop n ss) ≤ count_id k ss
count_id-drop-le k zero ss = omega arith
count_id-drop-le k (suc n) [] = omega arith
count_id-drop-le k (suc n) (s ∷ ss) = omega (arith, count_id-drop-le k n ss)

-- Disjoint tests pick disjoint entries.
pub count_id-filter-le :
    (k : String) (p q : Session → Bool) (ss : List Session)
    → ((s : Session) → p s ≡ true → q s ≡ false)
    → count_id k (filter p ss) + count_id k (filter q ss) ≤ count_id k ss
count_id-filter-le k p q [] h = omega arith
count_id-filter-le k p q (s ∷ ss) h = ground (arith, h s, count_id-filter-le k p q ss h)

insert-In : (a s : Session) (ss : List Session) → In a (insert_session s ss) ↔ ((a ≡ s) ⊎ In a ss)
unfolding insert_session
insert-In a s [] = ground arith
insert-In a s (t ∷ ts) = ground (arith, insert-In a s ts)

-- The sort keeps the entries.
pub sort-In : (a : Session) (ss : List Session) → In a (sort_sessions ss) ↔ In a ss
unfolding sort_sessions
sort-In a [] = ground arith
sort-In a (s ∷ ss) = ground (arith, insert-In a s (sort_sessions ss), sort-In a ss)

length-insert : (s : Session) (ss : List Session) → length (insert_session s ss) ≡ length ss + 1
unfolding insert_session
length-insert s [] = refl
length-insert s (t ∷ ts) = ground (arith, length-insert s ts)

pub length-sort : (ss : List Session) → length (sort_sessions ss) ≡ length ss
unfolding sort_sessions
length-sort [] = refl
length-sort (s ∷ ss) = omega (arith, length-insert s (sort_sessions ss), length-sort ss)
