-- ===== src/Ring/Wire/Laws.antt =====
-- src/ring_agents/rings.ts: payloads that are built, and payloads that are parsed.
use macula_mcp.Base.{
  ◌≡◌, refl, ap, ◌∙◌, true, false, Option, none, some, List, [], ◌∷◌, ◌++◌, map, Text, codes, same,
  is_hex32, is_lower_hex64, arith, subst, length, sym, same_sound, Bool-cases, inl, inr,
}
use macula_mcp.Json.{Value, nat, text, obj, Fields, get, as_text, text_of, boolean_keys}
use macula_mcp.Json.Lookup.{get-opt_ne, get-opt_self}
use macula_mcp.Envelope.{is_room_topic}
use macula_mcp.Ring.{Verdict, accepted, declined}
use macula_mcp.Ring.Wire.{
  RingArgs, RingAnswerArgs, Problem, verdict_at, ring_header_problems, ring_body_problems,
  ring_problems, ring_answer_header_problems, ring_answer_problems, is_empty, read_ring,
  parse_ring_args, read_ring_answer, parse_ring_answer_args, ring_payload, verdict_code, text_value,
  ring_answer_payload, built, checked, build_ring_args, build_ring_answer_args, boolean_at,
  is_purpose, is_text_where,
}

read_ring-ring_payload : (r : RingArgs) → read_ring (ring_payload r) ≡ r
unfolding ring_payload get same
read_ring-ring_payload r = refl

verdict_at-code : (v : Verdict) → verdict_at (some (nat (verdict_code v))) ≡ some v
verdict_at-code accepted = refl
verdict_at-code declined = refl

as_text-text_value : (o : Option Text) → as_text (text_value o) ≡ o
as_text-text_value none = refl
as_text-text_value (some s) = refl

read_ring_answer-payload : (a : RingAnswerArgs) → read_ring_answer (ring_answer_payload a) ≡ a
unfolding ring_answer_payload get same
read_ring_answer-payload a =
    simp (get-opt_ne, get-opt_self, verdict_at-code a.answer, as_text-text_value a.reason)

is_empty-append :
    (a b : List Problem) → is_empty (a ++ b) ≡ true → (is_empty a ≡ true) × (is_empty b ≡ true)
is_empty-append [] b h = (refl, h)
is_empty-append (p ∷ a) b h = cc

checked_cases :
    {A : Type 0} (ps : List Problem) (a b : A)
    → checked ps a ≡ built b
    → (is_empty ps ≡ true) × (b ≡ a)
checked_cases [] a b h = (refl, ground arith)
checked_cases (p ∷ ps) a b h = cc

-- Whatever `buildRingArgs` returns is its argument, and the callee parses what is sent to exactly
-- that ring.
pub parse-build_ring_args :
    (args r : RingArgs)
    → build_ring_args args ≡ built r
    → (r ≡ args) × (parse_ring_args (obj (ring_payload r)) ≡ some r)
unfolding build_ring_args parse_ring_args
parse-build_ring_args args r h =
    let (valid, e) = checked_cases (ring_problems (obj (ring_payload args))) args r h in
    (e, rw (e, valid) (ap some (read_ring-ring_payload args)))

-- Whatever `buildRingAnswerArgs` returns is its argument, and the original caller parses what is
-- sent to exactly that answer.
parse-build_ring_answer_args :
    (args a : RingAnswerArgs)
    → build_ring_answer_args args ≡ built a
    → (a ≡ args) × (parse_ring_answer_args (obj (ring_answer_payload a)) ≡ some a)
unfolding build_ring_answer_args parse_ring_answer_args
parse-build_ring_answer_args args a h =
    let (valid, e) =
      checked_cases (ring_answer_problems (obj (ring_answer_payload args))) args a h in
    (e, rw (e, valid) (ap some (read_ring_answer-payload args)))

record IsRing (r : RingArgs) : Type 0 where
  pub ring_id : is_hex32 r.ring_id ≡ true
  pub from : is_lower_hex64 r.from ≡ true
  pub to : is_lower_hex64 r.to ≡ true
  pub purpose : is_purpose r.purpose ≡ true
  pub room_topic : is_room_topic r.room_topic ≡ true

header_sound :
    (p : Fields)
    → is_empty (ring_header_problems p) ≡ true
    → (is_hex32 (text_of (get (codes "ring_id") p)) ≡ true)
      × (is_lower_hex64 (text_of (get (codes "from") p)) ≡ true)
      × (is_lower_hex64 (text_of (get (codes "to") p)) ≡ true)
unfolding ring_header_problems
header_sound p h = ground arith

body_sound :
    (p : Fields)
    → is_empty (ring_body_problems p) ≡ true
    → (is_purpose (text_of (get (codes "purpose") p)) ≡ true)
      × (is_room_topic (text_of (get (codes "room_topic") p)) ≡ true)
unfolding ring_body_problems
body_sound p h = ground arith

kinds_differ :
    (v : Option Value)
    → is_text_where (same (codes "ring")) v ≡ true
    → is_text_where (same (codes "ring_answer")) v ≡ true
    → ⊥
unfolding same
kinds_differ (some (text s)) h k =
    let e = same_sound (codes "ring") s h in
    let f = same_sound (codes "ring_answer") s k in absurd (omega (arith, ap length (e ∙ sym f)))
kinds_differ none h k = cc
kinds_differ (some _) h k = cc

ring_kind :
    (p : Fields)
    → is_empty (ring_header_problems p) ≡ true
    → is_text_where (same (codes "ring")) (get (codes "kind") p) ≡ true
unfolding ring_header_problems
ring_kind p h = ground arith

ring_answer_kind :
    (p : Fields)
    → is_empty (ring_answer_header_problems p) ≡ true
    → is_text_where (same (codes "ring_answer")) (get (codes "kind") p) ≡ true
unfolding ring_answer_header_problems
ring_answer_kind p h = ground arith

-- The two kinds exclude each other.
headers_exclude :
    (p : Fields)
    → is_empty (ring_header_problems p) ≡ true
    → is_empty (ring_answer_problems (obj p)) ≡ false
unfolding ring_answer_problems
headers_exclude p h = elim (Bool-cases (is_empty (ring_answer_problems (obj p)))) [
  | inl both ↦
      let (_, rest) = is_empty-append (map boolean_at (boolean_keys p)) _ both in
      let (header, _) = is_empty-append (ring_answer_header_problems p) _ rest in
      absurd (kinds_differ (get (codes "kind") p) (ring_kind p h) (ring_answer_kind p header))
  | inr one ↦ one
]

parse_ring_cases :
    (v : Value) (r : RingArgs)
    → parse_ring_args v ≡ some r
    → (p : Fields) × (v ≡ obj p) × (read_ring p ≡ r) × (is_empty (ring_problems v) ≡ true)
unfolding parse_ring_args
parse_ring_cases (obj p) r h = (p, refl, ground arith, ground arith)
parse_ring_cases _ r h = cc

read_ring-IsRing :
    (p : Fields)
    → is_empty (ring_problems (obj p)) ≡ true
    → IsRing (read_ring p) × (parse_ring_answer_args (obj p) ≡ none)
unfolding ring_problems parse_ring_answer_args
read_ring-IsRing p h =
    let (_, rest) = is_empty-append (map boolean_at (boolean_keys p)) _ h in
    let (header, body) = is_empty-append (ring_header_problems p) _ rest in
    let (id, from, to) = header_sound p header in
    let (purpose, room) = body_sound p body in
    (
      record { ring_id = id; from = from; to = to; purpose = purpose; room_topic = room },
      rw (headers_exclude p header),
    )

-- Whatever the payload, a parsed ring has a ring id of 32 and node ids of 64 lowercase hex
-- characters, a purpose that is not blank and has at most MAX_PURPOSE_CHARS characters, and a room
-- topic; and the payload is not also read as an answer.
parse_ring_args-IsRing :
    (v : Value) (r : RingArgs)
    → parse_ring_args v ≡ some r
    → IsRing r × (parse_ring_answer_args v ≡ none)
parse_ring_args-IsRing v r h =
    let (p, same_value, read, valid) = parse_ring_cases v r h in
    let (ring, only) =
      read_ring-IsRing p (subst (λ w. is_empty (ring_problems w) ≡ true) same_value valid) in
    (subst IsRing read ring, subst (λ w. parse_ring_answer_args w ≡ none) (sym same_value) only)
