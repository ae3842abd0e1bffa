-- ===== src/Threads.antt =====
-- src/envelope.ts, threadEnvelopes: facts of a page of the transcript, in arrival order, put into
-- threads. The walk to a message's root runs on fuel, one unit for each message of the page and one
-- more; `none` is a walk that ran out.
pub mod Walk
use macula_mcp.Base.{
  ℕ, ◌+◌, Bool, true, false, not, Option, none, some, List, [], ◌∷◌, Text, same, any, length, zero,
  suc, if◌then◌else◌, bit,
}
use macula_mcp.Json.{Value}
use macula_mcp.Envelope.{Envelope, parse_envelope, is_attested}

-- A row of the transcript, and one whose payload is an envelope.
pub record Row : Type 0 where
  pub payload : Value
  pub observed_at : ℕ
  pub publisher : Option Text
  pub seq : Option ℕ

pub record ParsedRow : Type 0 where
  pub env : Envelope
  pub observed_at : ℕ
  pub publisher : Option Text
  pub seq : Option ℕ

pub record ObservedEnvelope : Type 0 where
  pub envelope : Envelope
  pub observed_at : ℕ
  pub thread_root : Text
  pub depth : ℕ
  pub attested : Bool
  pub seq : Option ℕ

-- The first pass: the rows that are envelopes, and how many are not.
abbrev pub parse_row : Row → List ParsedRow × ℕ → List ParsedRow × ℕ
parse_row row (parsed, unparsed) = elim (parse_envelope row.payload) [
  | none ↦ (parsed, suc unparsed)
  | some env ↦ (
    record { env = env; observed_at = row.observed_at; publisher = row.publisher; seq = row.seq }
        ∷ parsed,
    unparsed,
  )
]

unfoldable pub parse_rows : List Row → List ParsedRow × ℕ
parse_rows [] = ([], 0)
parse_rows (row ∷ rows) = parse_row row (parse_rows rows)

-- byId.get: the map keeps the last envelope that was set under an id.
unfoldable pub by_id : Text → List ParsedRow → Option Envelope
by_id id [] = none
by_id id (p ∷ ps) =
    let later = by_id id ps in
    elim later [ some e ↦ some e | none ↦ if same p.env.message_id id then some p.env else none ]

-- One turn of the walk: where it stops, or the parent that it goes on from.
pub data Turn : Type 0 where
  stops : Text → Turn
  goes_on : Envelope → Turn

abbrev pub turn : List ParsedRow → List Text → Text → Turn
turn page seen target = elim (by_id target page) [
  | none ↦ stops target
  | some parent ↦ if any (same parent.message_id) seen then stops target else goes_on parent
]

-- The loop of `resolve`, from `cur`, whose root so far is its own id: the root and the depth.
unfoldable pub resolve : ℕ → List ParsedRow → Envelope → List Text → ℕ → Option (Text × ℕ)
resolve zero page cur seen depth = none
resolve (suc fuel) page cur seen depth = elim cur.in_reply_to [
  | none ↦ some (cur.message_id, depth)
  | some target ↦ elim (turn page seen target) [
    | stops root ↦ some (root, suc depth)
    | goes_on parent ↦ resolve fuel page parent (parent.message_id ∷ seen) (suc depth)
  ]
]

abbrev pub observed : ParsedRow → Text × ℕ → ObservedEnvelope
observed p (root, depth) = record {
  envelope = p.env;
  observed_at = p.observed_at;
  thread_root = root;
  depth = depth;
  attested = is_attested p.env.from p.publisher;
  seq = p.seq;
}

abbrev pub thread_row : List ParsedRow → ParsedRow → Option ObservedEnvelope
thread_row page p = elim (resolve (suc (length page)) page p.env (p.env.message_id ∷ []) 0) [
  | none ↦ none
  | some found ↦ some (observed p found)
]

-- The second pass over `rows`, each resolved in the whole page.
unfoldable pub thread_rows : List ParsedRow → List ParsedRow → Option (List ObservedEnvelope)
thread_rows page [] = some []
thread_rows page (p ∷ ps) =
    let rest = thread_rows page ps in
    elim (thread_row page p) [
      | none ↦ none
      | some m ↦ elim rest [ none ↦ none | some ms ↦ some (m ∷ ms) ]
    ]

unfoldable pub thread_envelopes : List Row → Option (List ObservedEnvelope) × ℕ
thread_envelopes rows = let (page, unparsed) = parse_rows rows in (thread_rows page page, unparsed)
