-- ===== src/Membership.antt =====
-- src/converse_in_rooms/room_membership.ts: which rooms each identity is in. The table is a list of
-- rows in the order they were written; a time is the number of milliseconds that its text names.
pub mod Table
use macula_mcp.Base.{
  ℕ, ◌≡◌, ◌≤◌, ◌+◌, Bool, true, false, not, ◌&&◌, ◌||◌, Option, none, some, List, [], ◌∷◌, ◌++◌,
  Text, same, same_iff, same_refl, keep, count_if, any, ltb, leb, ◌==◌, if◌then◌else◌, arith, bit,
}

pub record Membership : Type 0 where
  pub self : Text
  pub room_topic : Text
  pub opened_by : Text
  pub opened_here : Bool
  pub public : Bool
  pub purpose : Option Text
  pub joined_at : ℕ

-- self = ? AND room_topic = ?, the primary key.
abbrev pub is_row : Text → Text → Membership → Bool
is_row self topic m = same m.self self && same m.room_topic topic

abbrev pub is_of : Text → Membership → Bool
is_of self m = same m.self self

-- The order of two texts by their code units.
unfoldable pub precedes : Text → Text → Bool
precedes [] ys = true
precedes (x ∷ xs) [] = false
precedes (x ∷ xs) (y ∷ ys) = let rest = precedes xs ys in if ltb x y then true else (x == y) && rest

-- joined_at, room_topic
abbrev pub is_before : Membership → Membership → Bool
is_before a b =
    ltb a.joined_at b.joined_at
    || (a.joined_at == b.joined_at) && precedes a.room_topic b.room_topic

abbrev pub put_oldest : Membership → List Membership → List Membership
put_oldest m [] = m ∷ []
put_oldest m (x ∷ xs) =
    let later = x ∷ put_oldest m xs in if is_before m x then m ∷ x ∷ xs else later

abbrev pub oldest_first : List Membership → List Membership
oldest_first [] = []
oldest_first (m ∷ ms) = put_oldest m (oldest_first ms)

unfoldable pub memberships : Text → List Membership → List Membership
memberships self table = oldest_first (keep (is_of self) table)

unfoldable pub is_joined : Text → Text → List Membership → Bool
is_joined self topic table = any (is_row self topic) table

unfoldable pub room_count : Text → List Membership → ℕ
room_count self table = count_if (is_of self) table

-- INSERT OR IGNORE
unfoldable pub record_membership : Membership → List Membership → List Membership
unfolding is_joined
record_membership m table = if is_joined m.self m.room_topic table then table else table ++ m ∷ []

unfoldable pub forget : Text → Text → List Membership → List Membership
forget self topic table = keep (λ m. not (is_row self topic m)) table
