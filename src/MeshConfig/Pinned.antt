-- ===== src/MeshConfig/Pinned.antt =====
-- src/mesh_config.ts: every station that is linked to is pinned.
use macula_mcp.Base.{
  ◌≡◌, refl, Bool, true, Option, none, some, List, [], ◌∷◌, Text, all, is_hex64, is_lower_hex64,
  lower_hex64-to_lower_case, length, Bool-cases, inl, inr, arith, any, ◌==◌,
}
use macula_mcp.MeshConfig.{
  Configured, given, mesh_error, Seed, entries_of, collected, read_each, seed_entry, pinned_seed,
  pinned_match, parse_seed, default_seeds, seeds,
}

abbrev pub is_pinned : Seed → Bool
is_pinned s = is_lower_hex64 s.node_id

-- What a configuration must be like, if it is one.
abbrev pub Gives {ℓ κ} : {A : Type ℓ} → (A → Type κ) → Configured A → Type κ
Gives P (given a) = P a
Gives P (mesh_error e) = Unit

pinned_seed-is_pinned : (m : Seed) → Gives (λ s. is_pinned s ≡ true) (pinned_seed m)
pinned_seed-is_pinned m = elim (Bool-cases (is_hex64 m.node_id)) [
  | inl hex ↦ rw hex (lower_hex64-to_lower_case m.node_id hex)
  | inr bad ↦ rw bad tt
]

pinned_match-is_pinned : (m : Option Seed) → Gives (λ s. is_pinned s ≡ true) (pinned_match m)
pinned_match-is_pinned none = tt
pinned_match-is_pinned (some m) = pinned_seed-is_pinned m

parse_seed-is_pinned : (entry : Text) → Gives (λ s. is_pinned s ≡ true) (parse_seed entry)
unfolding parse_seed
parse_seed-is_pinned entry = elim (Bool-cases (any (λ c. c == b'@') entry)) [
  | inl named ↦ rw named (pinned_match-is_pinned (seed_entry entry))
  | inr unnamed ↦ rw unnamed tt
]

-- One station for each entry, each of them pinned.
abbrev pub ArePinned : List Text → List Seed → Type 0
ArePinned ts ss = (all is_pinned ss ≡ true) × (length ss ≡ length ts)

collected-ArePinned :
    (t : Text) (ts : List Text) (m : Configured Seed) (ms : Configured (List Seed))
    → Gives (λ s. is_pinned s ≡ true) m
    → Gives (ArePinned ts) ms
    → Gives (ArePinned (t ∷ ts)) (collected m ms)
collected-ArePinned t ts (mesh_error e) ms h k = tt
collected-ArePinned t ts (given s) (mesh_error e) h k = tt
collected-ArePinned t ts (given s) (given ss) h k = ground arith

read_each-ArePinned : (ts : List Text) → Gives (ArePinned ts) (read_each parse_seed ts)
unfolding read_each
read_each-ArePinned [] = (refl, refl)
read_each-ArePinned (t ∷ ts) =
    collected-ArePinned t ts (parse_seed t) (read_each parse_seed ts) (parse_seed-is_pinned t)
      (read_each-ArePinned ts)

-- The entries that are configured, or none where the built-in stations stand.
abbrev pub StationsOf : Option Text → List Seed → Type 0
StationsOf (some (c ∷ s)) ss = ArePinned (entries_of (c ∷ s)) ss
StationsOf _ ss = (all is_pinned ss ≡ true) × (ss ≡ default_seeds)

-- Every station that the server may link to, built in or configured, is pinned by a node id of 64
-- lower-case hexadecimal digits, and each configured entry that is not blank gives one station: an
-- entry that cannot be pinned is refused and never left out.
pub seeds-StationsOf : (list : Option Text) → Gives (StationsOf list) (seeds list)
unfolding seeds is_lower_hex64
seeds-StationsOf none = (refl, refl)
seeds-StationsOf (some []) = (refl, refl)
seeds-StationsOf (some (c ∷ s)) = read_each-ArePinned (entries_of (c ∷ s))
