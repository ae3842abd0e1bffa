-- ===== src/Membership/Table.antt =====
-- src/converse_in_rooms/room_membership.ts: the rows of an identity and a room under each write.
use macula_mcp.Base.{
  ℕ, ◌≡◌, ◌≤◌, ◌+◌, Bool, true, false, not, ◌&&◌, List, [], ◌∷◌, ◌++◌, Text, same, same_iff,
  same_refl, keep, count_if, any, arith, count_if-append, refl, inl, inr, Bool-cases, ◌||◌, ◌∙◌,
  count_if-keep-le,
}
use macula_mcp.Membership.{
  Membership, is_row, is_of, is_joined, room_count, record_membership, forget, put_oldest,
  oldest_first, memberships,
}

-- How many rows the key (self, room_topic) has.
abbrev pub rows_at : Text → Text → List Membership → ℕ
rows_at self topic table = count_if (is_row self topic) table

-- (self, room_topic) is the primary key.
abbrev pub IsKeyed : List Membership → Type 0
IsKeyed table = (self topic : Text) → rows_at self topic table ≤ 1

any_last :
    {A : Type 0} (p : A → Bool) (xs : List A) (x : A) → p x ≡ true → any p (xs ++ x ∷ []) ≡ true
any_last p [] x h = ground arith
any_last p (y ∷ ys) x h = ground (arith, any_last p ys x h)

pub is_joined-rows_at :
    (self topic : Text) (table : List Membership)
    → is_joined self topic table ≡ false
    → rows_at self topic table ≡ 0
unfolding is_joined
is_joined-rows_at self topic [] h = refl
is_joined-rows_at self topic (m ∷ ms) h = ground (arith, is_joined-rows_at self topic ms)

pub record_membership-IsKeyed :
    (m : Membership) (table : List Membership) → IsKeyed table → IsKeyed (record_membership m table)
unfolding record_membership
record_membership-IsKeyed m table keyed self topic =
    elim (Bool-cases (is_joined m.self m.room_topic table)) [
      | inl before ↦ rw before (keyed self topic)
      | inr new ↦ rw new (
          ground (
            arith,
            keyed self topic,
            count_if-append (is_row self topic) table (m ∷ []),
            is_joined-rows_at m.self m.room_topic table,
            same_iff m.self self,
            same_iff m.room_topic topic,
          ))
    ]

pub forget-IsKeyed :
    (self topic : Text) (table : List Membership)
    → IsKeyed table
    → IsKeyed (forget self topic table)
unfolding forget
forget-IsKeyed self topic table keyed s t =
    omega (arith, keyed s t, count_if-keep-le (is_row s t) (λ m. not (is_row self topic m)) table)

pub is_joined-record_membership :
    (m : Membership) (table : List Membership)
    → is_joined m.self m.room_topic (record_membership m table) ≡ true
unfolding record_membership is_joined
is_joined-record_membership m table = elim (Bool-cases (is_joined m.self m.room_topic table)) [
  | inl before ↦ rw before before
  | inr new ↦ rw new (
      any_last (is_row m.self m.room_topic) table m
        (ground (arith, same_refl m.self, same_refl m.room_topic)))
]

pub room_count-record_membership :
    (self : Text) (m : Membership) (table : List Membership)
    → room_count self (record_membership m table) ≤ room_count self table + 1
unfolding record_membership room_count
room_count-record_membership self m table =
    ground (arith, count_if-append (is_of self) table (m ∷ []))

-- A room is left by the identity that leaves it, and by no other.
pub is_joined-forget :
    (me topic self t : Text) (table : List Membership)
    → is_joined self t (forget me topic table)
      ≡ is_joined self t table && not (same self me && same t topic)
unfolding is_joined forget
is_joined-forget me topic self t [] = refl
is_joined-forget me topic self t (m ∷ ms) = ground (
  arith,
  is_joined-forget me topic self t ms,
  same_iff m.self self,
  same_iff m.self me,
  same_iff m.room_topic t,
  same_iff m.room_topic topic,
  same_iff self me,
  same_iff t topic,
)

-- The rooms that `memberships` lists are the rooms that the identity is in.
names_put_oldest :
    (t : Text) (m : Membership) (ms : List Membership)
    → any (λ x. same x.room_topic t) (put_oldest m ms)
      ≡ same m.room_topic t || any (λ x. same x.room_topic t) ms
names_put_oldest t m [] = refl
names_put_oldest t m (x ∷ xs) = ground (arith, names_put_oldest t m xs)

names_oldest_first :
    (t : Text) (ms : List Membership)
    → any (λ x. same x.room_topic t) (oldest_first ms) ≡ any (λ x. same x.room_topic t) ms
names_oldest_first t [] = refl
names_oldest_first t (m ∷ ms) =
    ground (arith, names_put_oldest t m (oldest_first ms), names_oldest_first t ms)

names_kept :
    (self t : Text) (ms : List Membership)
    → any (λ x. same x.room_topic t) (keep (is_of self) ms) ≡ is_joined self t ms
unfolding is_joined
names_kept self t [] = refl
names_kept self t (m ∷ ms) = ground (arith, names_kept self t ms)

pub memberships_lem :
    (self t : Text) (table : List Membership)
    → any (λ m. same m.room_topic t) (memberships self table) ≡ is_joined self t table
unfolding memberships
memberships_lem self t table =
    names_oldest_first t (keep (is_of self) table) ∙ names_kept self t table
