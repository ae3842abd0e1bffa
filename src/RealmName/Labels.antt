-- ===== src/RealmName/Labels.antt =====
-- src/realm_name.ts: splitting a name at its dots and joining it again.
use macula_mcp.Base.{
  ℕ, ◌≡◌, ◌≢◌, refl, Bool, true, not, ◌&&◌, List, [], ◌∷◌, ◌++◌, reverse, Text, all, ◌==◌, arith,
  ap, ◌∙◌, Bool-cases, inl, inr,
}
use mathlib.Core.List.{reverse-cons}
use macula_mcp.RealmName.{dot, cons_first, split, join}

abbrev pub is_dotless : Text → Bool
is_dotless l = all (λ c. not (c == dot)) l

join-cons_first : (c : ℕ) (ls : List Text) → ls ≢ [] → join (cons_first c ls) ≡ c ∷ join ls
join-cons_first c [] h = absurd (h refl)
join-cons_first c (l ∷ []) h = refl
join-cons_first c (l ∷ m ∷ ls) h = refl

pub split-nonempty : (s : Text) → split s ≢ []
split-nonempty [] h = ground arith
split-nonempty (c ∷ s) h = ground (arith, split-nonempty s)

pub join-split : (s : Text) → join (split s) ≡ s
join-split [] = refl
join-split (c ∷ s) = elim (Bool-cases (c == dot)) [
  | inl at_dot ↦
      rw at_dot (join-first [] (split s) (split-nonempty s) ∙ ground (arith, join-split s))
  | inr inside ↦ rw (inside, join-cons_first c (split s) (split-nonempty s), join-split s) refl
]
  where
    join-first : (l : Text) (ls : List Text) → ls ≢ [] → join (l ∷ ls) ≡ l ++ dot ∷ join ls
    join-first l [] h = absurd (h refl)
    join-first l (m ∷ ls) h = refl

split-append : (l s : Text) → is_dotless l ≡ true → split (l ++ dot ∷ s) ≡ l ∷ split s
split-append [] s h = refl
split-append (c ∷ l) s h = ground (arith, split-append l s)

split_of_dotless : (l : Text) → is_dotless l ≡ true → split l ≡ l ∷ []
split_of_dotless [] h = refl
split_of_dotless (c ∷ l) h = ground (arith, split_of_dotless l)

pub split-join : (ls : List Text) → ls ≢ [] → all is_dotless ls ≡ true → split (join ls) ≡ ls
split-join [] h d = absurd (h refl)
split-join (l ∷ []) h d = split_of_dotless l (ground arith)
split-join (l ∷ m ∷ ls) h d =
    split-append l (join (m ∷ ls)) (ground arith)
    ∙ ap (λ rest. l ∷ rest) (split-join (m ∷ ls) (ground arith) (ground arith))

pub split-dotless : (s : Text) → all is_dotless (split s) ≡ true
split-dotless [] = refl
split-dotless (c ∷ s) = ground (arith, split-dotless s)

pub all-append {ℓ} :
    {A : Type ℓ} (p : A → Bool) (xs ys : List A) → all p (xs ++ ys) ≡ all p xs && all p ys
all-append p [] ys = refl
all-append p (x ∷ xs) ys = ground (arith, all-append p xs ys)

pub all-reverse {ℓ} : {A : Type ℓ} (p : A → Bool) (xs : List A) → all p (reverse xs) ≡ all p xs
all-reverse p [] = refl
all-reverse p (x ∷ xs) =
    ap (all p) (reverse-cons x xs)
    ∙ ground (arith, all-append p (reverse xs) (x ∷ []), all-reverse p xs)
