-- ===== src/Serving/Standing.antt =====
-- src/serve.ts: no advertisement stands that unserve cannot end.
use macula_mcp.Base.{
  any-snoc, all-keep, all-snoc, ◌++◌, ℕ, ◌≡◌, refl, Bool, true, not, ◌||◌, none, some, List, [],
  ◌∷◌, map, Text, same, same_iff, all, any, keep, find, ◌==◌, arith, Option-cases, Bool-cases, inl,
  inr,
}
use macula_mcp.Serving.{
  Registration, ServeArgs, Served, is_named, recommanded, registration_of, serve, unserve,
  unserve_each, stopped, stop_all,
}
use macula_mcp.Serving.Registry.{
  Event, serves, lands, unserves, stop_ends, stops, step, run, is_free, is_unique, is_handle_of,
  is_stopping, are_registered, is_sound, is_free-keep, is_unique-keep, is_unique-snoc,
  advertised-is_sound,
}

-- One registration has the name, so the others keep their handles.
others_free :
    (name : Text) (q : Registration) (rs : List Registration)
    → same q.name name ≡ true
    → is_free q.name rs ≡ true
    → all (λ r. not (is_named name r) || r.served == q.served) rs ≡ true
others_free name q [] e h = refl
others_free name q (r ∷ rs) e h = ground (arith, others_free name q rs, same_iff q.name name)

only_one :
    (name : Text) (rs : List Registration) (q : Registration)
    → find (is_named name) rs ≡ some q
    → is_unique rs ≡ true
    → all (λ r. not (is_named name r) || r.served == q.served) rs ≡ true
only_one name [] q e u = refl
only_one name (r ∷ rs) q e u = elim (Bool-cases (is_named name r)) [
  | inl hit ↦ ground (arith, others_free name r rs)
  | inr other ↦ ground (arith, only_one name rs q)
]

kept_handle :
    (name : Text) (h : ℕ) (rs : List Registration) (q : Registration)
    → all (λ r. not (is_named name r) || r.served == q.served) rs ≡ true
    → any (is_handle_of h) rs ≡ true
    → any (is_handle_of h) (keep (λ r. not (is_named name r)) rs) || (q.served == h) ≡ true
kept_handle name h [] q one e = cc
kept_handle name h (r ∷ rs) q one e = ground (arith, kept_handle name h rs q)

are_registered-kept :
    (name : Text) (stopping live : List ℕ) (rs : List Registration) (q : Registration)
    → all (λ r. not (is_named name r) || r.served == q.served) rs ≡ true
    → are_registered stopping live rs ≡ true
    → are_registered (stopping ++ q.served ∷ []) live (keep (λ r. not (is_named name r)) rs) ≡ true
are_registered-kept name stopping [] rs q one h = refl
are_registered-kept name stopping (l ∷ ls) rs q one h = ground (
  arith,
  kept_handle name l rs q one,
  any-snoc (λ j. j == l) stopping q.served,
  are_registered-kept name stopping ls rs q one,
)

all_free-keep :
    (p : Registration → Bool) (fs rs : List Registration)
    → all (λ f. is_free f.name rs) fs ≡ true
    → all (λ f. is_free f.name (keep p rs)) fs ≡ true
all_free-keep p [] rs h = refl
all_free-keep p (f ∷ fs) rs h = ground (arith, all_free-keep p fs rs, is_free-keep f.name p rs)

unserve-is_sound :
    (name : Text) (s : Served) → is_sound s ≡ true → is_sound (unserve name s).0 ≡ true
unfolding unserve
unserve-is_sound name s h = elim (Option-cases (find (is_named name) s.registrations)) [
  | inl away ↦ ground arith
  | inr (q, e) ↦ ground (
    arith,
    only_one name s.registrations q e,
    is_unique-keep (λ r. not (is_named name r)) s.registrations,
    all_free-keep (λ r. not (is_named name r)) s.flights s.registrations,
    are_registered-kept name s.stopping s.live s.registrations q,
  )
]

unserve_each-is_sound :
    (names : List Text) (s : Served) → is_sound s ≡ true → is_sound (unserve_each names s) ≡ true
unserve_each-is_sound [] s h = h
unserve_each-is_sound (n ∷ ns) s h =
    unserve_each-is_sound ns (unserve n s).0 (unserve-is_sound n s h)

-- A change of a command leaves names and handles alone.
recommanded-is_free :
    (args : ServeArgs) (name : Text) (rs : List Registration)
    → is_free name (recommanded args rs) ≡ is_free name rs
recommanded-is_free args name [] = refl
recommanded-is_free args name (r ∷ rs) = ground (arith, recommanded-is_free args name rs)

recommanded-is_unique :
    (args : ServeArgs) (rs : List Registration) → is_unique (recommanded args rs) ≡ is_unique rs
recommanded-is_unique args [] = refl
recommanded-is_unique args (r ∷ rs) =
    ground (arith, recommanded-is_unique args rs, recommanded-is_free args r.name rs)

recommanded-handles :
    (args : ServeArgs) (h : ℕ) (rs : List Registration)
    → any (is_handle_of h) (recommanded args rs) ≡ any (is_handle_of h) rs
recommanded-handles args h [] = refl
recommanded-handles args h (r ∷ rs) = ground (arith, recommanded-handles args h rs)

recommanded-registered :
    (args : ServeArgs) (stopping live : List ℕ) (rs : List Registration)
    → are_registered stopping live (recommanded args rs) ≡ are_registered stopping live rs
recommanded-registered args stopping [] rs = refl
recommanded-registered args stopping (h ∷ hs) rs =
    ground (arith, recommanded-registered args stopping hs rs, recommanded-handles args h rs)

recommanded-all_free :
    (args : ServeArgs) (fs rs : List Registration)
    → all (λ f. is_free f.name (recommanded args rs)) fs ≡ all (λ f. is_free f.name rs) fs
recommanded-all_free args [] rs = refl
recommanded-all_free args (f ∷ fs) rs =
    ground (arith, recommanded-all_free args fs rs, recommanded-is_free args f.name rs)

find-none-is_free :
    (name : Text) (rs : List Registration) → find (is_named name) rs ≡ none → is_free name rs ≡ true
find-none-is_free name [] e = refl
find-none-is_free name (r ∷ rs) e = ground (arith, find-none-is_free name rs)

module _ (own_procedure : Text → Text) where
  serve-is_sound :
      (args : ServeArgs) (s : Served)
      → is_free args.name s.flights ≡ true
      → is_sound s ≡ true
      → is_sound (serve own_procedure args s).0 ≡ true
  unfolding serve
  serve-is_sound args s alone h = elim (Option-cases (find (is_named args.name) s.registrations)) [
    | inl new ↦
        let f = registration_of own_procedure args s.next_handle in
        ground (
          arith,
          find-none-is_free args.name s.registrations new,
          is_unique-snoc s.flights f,
          all-snoc (λ g. is_free g.name s.registrations) s.flights f,
        )
    | inr (q, there) ↦ ground (
      arith,
      recommanded-is_unique args s.registrations,
      recommanded-all_free args s.flights s.registrations,
      recommanded-registered args s.stopping s.live s.registrations,
    )
  ]

  -- No two serves of one name await their advertisement at once.
  abbrev pub IsAlone : Event → Served → Type 0
  IsAlone (serves args) s = is_free args.name s.flights ≡ true
  IsAlone _ s = Unit

  abbrev pub IsOrderly : List Event → Served → Type 0
  IsOrderly [] s = Unit
  IsOrderly (e ∷ es) s = IsAlone e s × IsOrderly es (step own_procedure e s)

  step-is_sound :
      (e : Event) (s : Served)
      → IsAlone e s
      → is_sound s ≡ true
      → is_sound (step own_procedure e s) ≡ true
  unfolding step stop_all stopped
  step-is_sound (serves args) s alone h = serve-is_sound args s alone h
  step-is_sound (lands handle ok) s alone h = advertised-is_sound handle ok s h
  step-is_sound (unserves name) s alone h = unserve-is_sound name s h
  step-is_sound (stop_ends handle) s alone h = ground (
    arith,
    all-keep (λ g. any (is_handle_of g) s.registrations || is_stopping s.stopping g)
        (λ g. not (g == handle)) s.live,
  )
  step-is_sound stops s alone h = unserve_each-is_sound (map (λ r. r.name) s.registrations) s h

  run-is_sound :
      (es : List Event) (s : Served)
      → IsOrderly es s
      → is_sound s ≡ true
      → is_sound (run own_procedure es s) ≡ true
  unfolding run
  run-is_sound [] s o h = h
  run-is_sound (e ∷ es) s (alone, o) h =
      run-is_sound es (step own_procedure e s) o (step-is_sound e s alone h)

  -- Where no two serves of one name await their advertisement at once, every advertisement that
  -- stands is that of a name in the registry, which has each name once, or its stop was called,
  -- whatever is served again, withdrawn or fails in between. So no advertisement is forgotten: one
  -- that stands without a registration is one whose stop is still awaited or has failed.
  pub run-are_registered :
      (es : List Event) (s : Served)
      → IsOrderly es s
      → is_sound s ≡ true
      → (is_unique (run own_procedure es s).registrations ≡ true)
        × (are_registered
              (run own_procedure es s).stopping
              (run own_procedure es s).live
              (run own_procedure es s).registrations
            ≡ true)
  run-are_registered es s o h = let kept = run-is_sound es s o h in (ground arith, ground arith)
