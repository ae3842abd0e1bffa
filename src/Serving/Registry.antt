-- ===== src/Serving/Registry.antt =====
-- src/serve.ts: which advertisements stand.
use macula_mcp.Base.{
  any-snoc, all-keep, find-all, ℕ, ◌≡◌, refl, Bool, true, not, ◌&&◌, ◌||◌, some, List, [], ◌∷◌,
  ◌++◌, Text, same, same_iff, all, any, keep, find, find-passes, ◌==◌, arith, Option-cases,
  Bool-cases, inl, inr, subst,
}
use macula_mcp.Serving.{
  Registration, ServeArgs, Served, is_named, with_registration, serve, advertised, unserve, stopped,
  stop_all,
}

pub data Event : Type 0 where
  serves : ServeArgs → Event
  lands : (handle : ℕ) (ok : Bool) → Event
  unserves : (name : Text) → Event
  stop_ends : (handle : ℕ) → Event
  stops : Event

module _ (own_procedure : Text → Text) where
  unfoldable pub step : Event → Served → Served
  step (serves args) s = (serve own_procedure args s).0
  step (lands handle ok) s = advertised handle ok s
  step (unserves name) s = (unserve name s).0
  step (stop_ends handle) s = stopped handle s
  step stops s = stop_all s

  unfoldable pub run : List Event → Served → Served
  run [] s = s
  run (e ∷ es) s = run es (step e s)

abbrev pub is_free : Text → List Registration → Bool
is_free name rs = all (λ r. not (is_named name r)) rs

abbrev pub is_unique : List Registration → Bool
is_unique [] = true
is_unique (r ∷ rs) = is_free r.name rs && is_unique rs

abbrev pub is_handle_of : ℕ → Registration → Bool
is_handle_of h r = r.served == h

-- Each is the handle of a registration, or its stop was called.
abbrev pub is_stopping : List ℕ → ℕ → Bool
is_stopping stopping h = any (λ j. j == h) stopping

abbrev pub are_registered : List ℕ → List ℕ → List Registration → Bool
are_registered stopping live rs = all (λ h. any (is_handle_of h) rs || is_stopping stopping h) live

abbrev pub is_sound : Served → Bool
is_sound s =
    is_unique s.registrations
    && (is_unique s.flights
        && (all (λ f. is_free f.name s.registrations) s.flights
            && are_registered s.stopping s.live s.registrations))

pub same_comm : (a b : Text) → same a b ≡ same b a
same_comm a b = ground (arith, same_iff a b, same_iff b a)

is_free-snoc :
    (name : Text) (rs : List Registration) (r : Registration)
    → is_free name (rs ++ r ∷ []) ≡ is_free name rs && not (same r.name name)
is_free-snoc name [] r = ground arith
is_free-snoc name (q ∷ qs) r = ground (arith, is_free-snoc name qs r)

pub is_unique-snoc :
    (rs : List Registration) (r : Registration)
    → is_unique (rs ++ r ∷ []) ≡ is_unique rs && is_free r.name rs
is_unique-snoc [] r = refl
is_unique-snoc (q ∷ qs) r =
    ground (arith, is_unique-snoc qs r, is_free-snoc q.name qs r, same_comm r.name q.name)

with_registration-free :
    (r : Registration) (rs : List Registration)
    → is_free r.name rs ≡ true
    → with_registration r rs ≡ rs ++ r ∷ []
with_registration-free r [] h = refl
with_registration-free r (q ∷ qs) h = ground (arith, with_registration-free r qs)

pub is_free-keep :
    (name : Text) (p : Registration → Bool) (rs : List Registration)
    → is_free name rs ≡ true
    → is_free name (keep p rs) ≡ true
is_free-keep name p [] h = refl
is_free-keep name p (r ∷ rs) h = ground (arith, is_free-keep name p rs)

pub is_unique-keep :
    (p : Registration → Bool) (rs : List Registration)
    → is_unique rs ≡ true
    → is_unique (keep p rs) ≡ true
is_unique-keep p [] h = refl
is_unique-keep p (r ∷ rs) h = ground (arith, is_unique-keep p rs, is_free-keep r.name p rs)

is_free-others :
    (name : Text) (p : Registration → Bool) (rs : List Registration)
    → is_free name rs ≡ true
    → all (λ g. not (same name g.name)) (keep p rs) ≡ true
is_free-others name p [] h = refl
is_free-others name p (r ∷ rs) h = ground (arith, is_free-others name p rs, same_comm name r.name)

-- What a flight that lands leaves: no other flight has its name.
all_other :
    (handle : ℕ) (fs : List Registration) (f : Registration)
    → find (is_handle_of handle) fs ≡ some f
    → is_unique fs ≡ true
    → all (λ g. not (same f.name g.name)) (keep (λ g. not (is_handle_of handle g)) fs) ≡ true
all_other handle [] f e u = refl
all_other handle (g ∷ gs) f e u = elim (Bool-cases (is_handle_of handle g)) [
  | inr other ↦ ground (
    arith,
    all_other handle gs f,
    find-all (is_handle_of handle) (λ r. not (is_named g.name r)) gs f,
  )
  | inl hit ↦
      let same_one : g ≡ f = ground arith in
      subst
        (λ x.
          all (λ y. not (same x.name y.name)) (keep (λ y. not (is_handle_of handle y)) (g ∷ gs))
          ≡ true)
        same_one (ground (arith, is_free-others g.name (λ y. not (is_handle_of handle y)) gs))
]

are_registered-snoc :
    (stopping live : List ℕ) (rs : List Registration) (r : Registration)
    → are_registered stopping live rs ≡ true
    → are_registered stopping (live ++ r.served ∷ []) (rs ++ r ∷ []) ≡ true
are_registered-snoc stopping [] rs r h = ground (arith, any-snoc (is_handle_of r.served) rs r)
are_registered-snoc stopping (l ∷ ls) rs r h =
    ground (arith, any-snoc (is_handle_of l) rs r, are_registered-snoc stopping ls rs r)

all_free-snoc :
    (fs rs : List Registration) (r : Registration)
    → all (λ f. is_free f.name rs) fs ≡ true
    → all (λ f. not (same r.name f.name)) fs ≡ true
    → all (λ f. is_free f.name (rs ++ r ∷ [])) fs ≡ true
all_free-snoc [] rs r h k = refl
all_free-snoc (f ∷ fs) rs r h k = ground (arith, all_free-snoc fs rs r, is_free-snoc f.name rs r)

pub advertised-is_sound :
    (handle : ℕ) (ok : Bool) (s : Served)
    → is_sound s ≡ true
    → is_sound (advertised handle ok s) ≡ true
unfolding advertised
advertised-is_sound handle ok s h = elim (Option-cases (find (is_handle_of handle) s.flights)) [
  | inl away ↦ ground arith
  | inr (f, e) ↦
      let others = keep (λ g. not (is_handle_of handle g)) s.flights in
      let free =
        find-all (is_handle_of handle) (λ g. is_free g.name s.registrations) s.flights f e in
      ground (
        arith,
        free,
        find-passes (is_handle_of handle) s.flights f e,
        with_registration-free f s.registrations,
        is_unique-snoc s.registrations f,
        is_unique-keep (λ g. not (is_handle_of handle g)) s.flights,
        all-keep (λ g. is_free g.name s.registrations) (λ g. not (is_handle_of handle g)) s.flights,
        all_other handle s.flights f e,
        all_free-snoc others s.registrations f,
        are_registered-snoc s.stopping s.live s.registrations f,
      )
]
