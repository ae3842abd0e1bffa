-- ===== src/Dossier/Counts.antt =====
-- src/ring_agents/ring_dossier.ts: counting the rows of a key before and after an update.
use macula_mcp.Base.{
  ℕ, ◌+◌, ◌*◌, ◌≤◌, ◌<◌, ◌≡◌, ◌≢◌, refl, Bool, true, false, ◌&&◌, none, some, List, [], ◌∷◌, Text,
  same, arith, count_if, bit, any, find, All, same_iff, Bool-cases, inl, inr, subst,
}
use macula_mcp.Ring.{Direction, same_direction, RingRow, has_key, is_decided}
use macula_mcp.Dossier.{update_where, attributed}

abbrev pub rows_of : Text → Direction → List RingRow → ℕ
rows_of id dir = count_if (has_key id dir)

abbrev pub is_decided_row : Text → Direction → RingRow → Bool
is_decided_row id dir r = has_key id dir r && is_decided r.answer

abbrev pub decided_rows : Text → Direction → List RingRow → ℕ
decided_rows id dir = count_if (is_decided_row id dir)

abbrev pub IsOwned : RingRow → Type 0
IsOwned r = attributed r.self ≢ none

-- An update that keeps a row's key, node and, for some, its answer.
pub record IsKeeping (f : RingRow → RingRow) : Type 0 where
  pub ring_id : (r : RingRow) → (f r).ring_id ≡ r.ring_id
  pub direction : (r : RingRow) → (f r).direction ≡ r.direction
  pub self : (r : RingRow) → (f r).self ≡ r.self

module _ (p : RingRow → Bool) (f : RingRow → RingRow) (k : IsKeeping f) where
  pub rows_of-update_where :
      (id : Text) (dir : Direction) (rows : List RingRow)
      → rows_of id dir (update_where p f rows) ≡ rows_of id dir rows
  rows_of-update_where id dir [] = refl
  rows_of-update_where id dir (r ∷ rows) =
      ground (arith, k.ring_id r, k.direction r, rows_of-update_where id dir rows)

  pub update_where-IsOwned :
      (rows : List RingRow) → All IsOwned rows → All IsOwned (update_where p f rows)
  update_where-IsOwned [] h = tt
  update_where-IsOwned (r ∷ rows) h = ground (arith, k.self r, update_where-IsOwned rows h.1)

  pub decided_rows_kept :
      ((r : RingRow) → (f r).answer ≡ r.answer)
      → (id : Text) (dir : Direction) (rows : List RingRow)
      → decided_rows id dir (update_where p f rows) ≡ decided_rows id dir rows
  decided_rows_kept same_answer id dir [] = refl
  decided_rows_kept same_answer id dir (r ∷ rows) =
      ground (
        arith,
        k.ring_id r,
        k.direction r,
        same_answer r,
        decided_rows_kept same_answer id dir rows,
      )

  -- Rows that were not decided become decided, or stay undecided, together.
  pub decided_rows-update_where :
      (b : Bool)
      → ((r : RingRow) → p r ≡ true → is_decided r.answer ≡ false)
      → ((r : RingRow) → is_decided (f r).answer ≡ b)
      → (id : Text) (dir : Direction) (rows : List RingRow)
      → decided_rows id dir (update_where p f rows)
        ≡ decided_rows id dir rows + bit b * count_if (λ r. has_key id dir r && p r) rows
  decided_rows-update_where b before after id dir [] = omega arith
  decided_rows-update_where b before after id dir (r ∷ rows) = ground (
    arith,
    k.ring_id r,
    k.direction r,
    before r,
    after r,
    decided_rows-update_where b before after id dir rows,
  )

module _ (p : RingRow → Bool) (id : Text) (dir : Direction)
    (keyed : (r : RingRow) → p r ≡ true → has_key id dir r ≡ true) where
  pub count_if-le-rows_of : (rows : List RingRow) → count_if p rows ≤ rows_of id dir rows
  count_if-le-rows_of [] = omega arith
  count_if-le-rows_of (r ∷ rows) = ground (arith, keyed r, count_if-le-rows_of rows)

  -- Under another key nothing passes the test.
  pub count_at_key :
      (j : Text) (e : Direction) (rows : List RingRow)
      → count_if (λ r. has_key j e r && p r) rows
        ≡ bit (same id j && same_direction dir e) * count_if p rows
  count_at_key j e [] = omega arith
  count_at_key j e (r ∷ rows) = ground (
    arith,
    keyed r,
    same_iff r.ring_id id,
    same_iff r.ring_id j,
    same_iff id j,
    count_at_key j e rows,
  )

-- A row is found where one is counted, and it passes the test.
pub find_of_count :
    (p : RingRow → Bool) (rows : List RingRow)
    → 0 < count_if p rows
    → (r : RingRow) × (find p rows ≡ some r) × (p r ≡ true)
find_of_count p [] h = absurd (omega arith)
find_of_count p (r ∷ rows) h = elim (Bool-cases (p r)) [
  | inl hit ↦ (r, rw hit, hit)
  | inr miss ↦
      let (x, found, passed) = find_of_count p rows (ground arith) in (x, rw miss found, passed)
]

pub find-IsOwned :
    (p : RingRow → Bool) (rows : List RingRow) (r : RingRow)
    → All IsOwned rows
    → find p rows ≡ some r
    → IsOwned r
find-IsOwned p [] r h e = cc
find-IsOwned p (x ∷ rows) r (own, h) e = elim (Bool-cases (p x)) [
  | inl hit ↦ let e' : x ≡ r = ground arith in subst IsOwned e' own
  | inr miss ↦ find-IsOwned p rows r h (ground arith)
]

pub any-eq-false :
    (p : RingRow → Bool) (rows : List RingRow) → any p rows ≡ false → count_if p rows ≡ 0
any-eq-false p [] h = refl
any-eq-false p (r ∷ rows) h = ground (arith, any-eq-false p rows)
