-- ===== src/Waitlist/Eligibility.antt =====
-- `slot_is_free` and `find_eligible_entries` of backend/kairos/waitlist/services.py.
use kairos_booking_engine.Base.{
  ◌⊎◌, ℕ, ◌+◌, ◌≡◌, refl, ◌∙◌, Bool, true, not, ◌&&◌, ◌||◌, List, [], ◌∷◌, arith, ltb, leb, ◌==◌,
  if◌then◌else◌, any, all, select, count_where, ◌≤◌, ◌<◌, All, Bool-cases, inl, inr,
}
use kairos_booking_engine.Range.{Range, overlaps, contained_by}
use kairos_booking_engine.Schema.{Booking, WaitlistEntry, is_waiting}
use kairos_booking_engine.Store.{Tables}
use kairos_booking_engine.Store.Bookings.{occupies}

-- A confirmed or held booking of the resource overlaps the range.
abbrev pub is_occupied : ℕ → Range → Booking → Bool
is_occupied resource r b = (b.resource == resource && occupies b) && overlaps b.time_range r

unfoldable pub slot_is_free : ℕ → Range → Tables → Bool
slot_is_free resource r t = not (any (is_occupied resource r) t.bookings)

-- resource_id=.., status=WAITING, time_range__contained_by=(freed_start, freed_end)
abbrev pub is_eligible : ℕ → Range → WaitlistEntry → Bool
is_eligible resource freed e =
    (e.resource == resource && is_waiting e.status) && contained_by e.time_range freed

-- ORDER BY joined_at, id
abbrev pub comes_before : WaitlistEntry → WaitlistEntry → Bool
comes_before a b = ltb a.joined_at b.joined_at || (a.joined_at == b.joined_at && leb a.id b.id)

insert_ordered : WaitlistEntry → List WaitlistEntry → List WaitlistEntry
insert_ordered e [] = e ∷ []
insert_ordered e (x ∷ xs) =
    let rest = insert_ordered e xs in if comes_before e x then e ∷ x ∷ xs else x ∷ rest

order_by_joined : List WaitlistEntry → List WaitlistEntry
order_by_joined [] = []
order_by_joined (e ∷ es) = insert_ordered e (order_by_joined es)

unfoldable pub find_eligible_entries : ℕ → Range → Tables → List WaitlistEntry
unfolding order_by_joined insert_ordered
find_eligible_entries resource freed t =
    order_by_joined (select (is_eligible resource freed) t.entries)

-- Each row comes before all later ones.
abbrev pub is_ordered : List WaitlistEntry → Bool
is_ordered [] = true
is_ordered (e ∷ es) = all (comes_before e) es && is_ordered es

all_insert :
    (q : WaitlistEntry → Bool) (e : WaitlistEntry) (xs : List WaitlistEntry)
    → q e ≡ true
    → all q xs ≡ true
    → all q (insert_ordered e xs) ≡ true
unfolding insert_ordered
all_insert q e [] h k = ground arith
all_insert q e (x ∷ xs) h k = ground (arith, all_insert q e xs)

all_later :
    (e x : WaitlistEntry) (xs : List WaitlistEntry)
    → comes_before e x ≡ true
    → all (comes_before x) xs ≡ true
    → all (comes_before e) xs ≡ true
all_later e x [] h k = refl
all_later e x (y ∷ ys) h k = ground (arith, all_later e x ys)

insert_ordered-is_ordered :
    (e : WaitlistEntry) (xs : List WaitlistEntry)
    → is_ordered xs ≡ true
    → is_ordered (insert_ordered e xs) ≡ true
unfolding insert_ordered
insert_ordered-is_ordered e [] h = refl
insert_ordered-is_ordered e (x ∷ xs) h =
    ground
      (arith, insert_ordered-is_ordered e xs, all_later e x xs, all_insert (comes_before x) e xs)

order_by_joined-is_ordered : (xs : List WaitlistEntry) → is_ordered (order_by_joined xs) ≡ true
unfolding order_by_joined
order_by_joined-is_ordered [] = refl
order_by_joined-is_ordered (e ∷ es) =
    insert_ordered-is_ordered e (order_by_joined es) (order_by_joined-is_ordered es)

count_insert :
    (p : WaitlistEntry → Bool) (e : WaitlistEntry) (xs : List WaitlistEntry)
    → count_where p (insert_ordered e xs) ≡ (if p e then 1 else 0) + count_where p xs
unfolding insert_ordered
count_insert p e [] = refl
count_insert p e (x ∷ xs) = ground (arith, count_insert p e xs)

count_order_by :
    (p : WaitlistEntry → Bool) (xs : List WaitlistEntry)
    → count_where p (order_by_joined xs) ≡ count_where p xs
unfolding order_by_joined
count_order_by p [] = refl
count_order_by p (e ∷ es) =
    ground (arith, count_insert p e (order_by_joined es), count_order_by p es)

count_select :
    (p q : WaitlistEntry → Bool) (xs : List WaitlistEntry)
    → count_where p (select q xs) ≡ count_where (λ e. q e && p e) xs
count_select p q [] = refl
count_select p q (x ∷ xs) = ground (arith, count_select p q xs)

-- Joined earlier, or at the same time with an identifier that is no greater.
abbrev pub JoinedNoLater : WaitlistEntry → WaitlistEntry → Type 0
JoinedNoLater a b = (a.joined_at < b.joined_at) ⊎ ((a.joined_at ≡ b.joined_at) × (a.id ≤ b.id))

-- First come, first served: each entry joined no later than all behind it.
abbrev pub IsFirstCome : List WaitlistEntry → Type 0
IsFirstCome [] = Unit
IsFirstCome (a ∷ es) = All (JoinedNoLater a) es × IsFirstCome es

joined_first : (a b : WaitlistEntry) → comes_before a b ≡ true → JoinedNoLater a b
joined_first a b h = elim (Bool-cases (ltb a.joined_at b.joined_at)) [
  | inl earlier ↦ inl (ground arith)
  | inr later ↦ inr (ground arith, ground arith)
]

all_behind :
    (a : WaitlistEntry) (es : List WaitlistEntry)
    → all (comes_before a) es ≡ true
    → All (JoinedNoLater a) es
all_behind a [] h = tt
all_behind a (b ∷ es) h = (joined_first a b (ground arith), all_behind a es (ground arith))

is_ordered-IsFirstCome : (es : List WaitlistEntry) → is_ordered es ≡ true → IsFirstCome es
is_ordered-IsFirstCome [] h = tt
is_ordered-IsFirstCome (a ∷ es) h =
    (all_behind a es (ground arith), is_ordered-IsFirstCome es (ground arith))

-- In the list of candidates for a freed range, each joined earlier than every one behind it, or
-- at the same time with an identifier that is no greater; and the candidates are the waiting
-- entries of the resource whose range starts no earlier and ends no later than the freed one,
-- each as often as in the table.
pub find_eligible_entries-IsFirstCome :
    (resource : ℕ) (freed : Range) (t : Tables)
    → IsFirstCome (find_eligible_entries resource freed t)
      × ((p : WaitlistEntry → Bool)
          → count_where p (find_eligible_entries resource freed t)
            ≡ count_where
                (λ w.
                  ((w.resource == resource && is_waiting w.status)
                    && (leb freed.lower w.time_range.lower && leb w.time_range.upper freed.upper))
                  && p w)
                t.entries)
unfolding find_eligible_entries
find_eligible_entries-IsFirstCome resource freed t =
    let found = select (is_eligible resource freed) t.entries in
    (
      is_ordered-IsFirstCome (order_by_joined found) (order_by_joined-is_ordered found),
      λ p. count_order_by p found ∙ count_select p (is_eligible resource freed) t.entries,
    )
