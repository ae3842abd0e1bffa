-- ===== src/Envelope/Sound.antt =====
-- src/envelope.ts: the rules of the wire and parseEnvelope.
use macula_mcp.Base.{
  ◌≡◌, refl, Bool, true, false, ◌&&◌, Option, none, some, List, [], ◌∷◌, ◌++◌, map, Text, codes,
  arith, length, all, is_hex32, is_hex64, is_lower_hex64, to_lower_case, is_some, leb,
  lower_hex64-to_lower_case, ◌⊎◌, subst,
}
use macula_mcp.Json.{
  Value, obj, arr, Items, nil, cons, items, Fields, get, texts_in, text_of, every_text,
  optional_text, optional_texts, boolean_keys,
}
use macula_mcp.Envelope.{
  is_conversation_topic, Envelope, Problem, needs_reply_to, kind_at, read_envelope, parse_envelope,
  lower_all, known_kind, is_empty, envelope_problems, field_problems, identity_problems,
  sender_problems, reply_problems, reference_problems, recipient_problems, max_to, is_recipients,
  boolean_at,
}

abbrev pub holds_if_present {ℓ} : {A : Type ℓ} → (A → Bool) → Option A → Bool
holds_if_present p none = true
holds_if_present p (some a) = p a

abbrev pub is_recipient_list : List Text → Bool
is_recipient_list ids = all is_lower_hex64 ids && leb 1 (length ids) && leb (length ids) max_to

-- The rules of the wire, as a predicate on the parsed envelope.
pub record IsEnvelope (e : Envelope) : Type 0 where
  pub message_id : is_hex32 e.message_id ≡ true
  pub room_topic : is_conversation_topic e.room_topic ≡ true
  pub from : is_lower_hex64 e.from ≡ true
  pub in_reply_to : holds_if_present is_hex32 e.in_reply_to ≡ true
  pub replies : (needs_reply_to e.kind ≡ false) ⊎ (is_some e.in_reply_to ≡ true)
  pub to : holds_if_present is_recipient_list e.to ≡ true

is_empty-append :
    (a b : List Problem) → is_empty (a ++ b) ≡ true → (is_empty a ≡ true) × (is_empty b ≡ true)
is_empty-append [] b h = (refl, h)
is_empty-append (p ∷ a) b h = cc

every_text-hex :
    (vs : Items)
    → every_text is_hex64 vs ≡ true
    → (all is_lower_hex64 (map to_lower_case (texts_in vs)) ≡ true)
      × (length (map to_lower_case (texts_in vs)) ≡ length (items vs))
every_text-hex nil h = (refl, refl)
every_text-hex (cons (Value.text s) vs) h =
    ground (arith, lower_hex64-to_lower_case s, every_text-hex vs)
every_text-hex (cons _ vs) h = cc

recipients_sound :
    (v : Option Value)
    → is_recipients v ≡ true
    → holds_if_present is_recipient_list (lower_all (optional_texts v)) ≡ true
recipients_sound none h = refl
recipients_sound (some (arr vs)) h = ground (arith, every_text-hex vs)
recipients_sound (some _) h = cc

-- The four groups of rules, each from the problems that it leaves empty.
module _ (p : Fields) where
  identity_sound :
      is_empty (identity_problems p) ≡ true
      → (is_hex32 (text_of (get (codes "message_id") p)) ≡ true)
        × (is_conversation_topic (text_of (get (codes "room_topic") p)) ≡ true)
  unfolding identity_problems
  identity_sound h = ground arith

  sender_sound :
      is_empty (sender_problems p) ≡ true
      → (is_lower_hex64 (to_lower_case (text_of (get (codes "from") p))) ≡ true)
        × (is_some (kind_at (get (codes "kind") p)) ≡ true)
  unfolding sender_problems
  sender_sound h = ground (arith, lower_hex64-to_lower_case (text_of (get (codes "from") p)))

  reply_sound :
      is_empty (reply_problems p) ≡ true
      → (holds_if_present is_hex32 (optional_text (get (codes "in_reply_to") p)) ≡ true)
        × ((needs_reply_to (known_kind (kind_at (get (codes "kind") p))) ≡ false)
            ⊎ (is_some (optional_text (get (codes "in_reply_to") p)) ≡ true))
  unfolding reply_problems
  reply_sound h = ground arith

  recipient_sound :
      is_empty (recipient_problems p) ≡ true
      → holds_if_present is_recipient_list (lower_all (optional_texts (get (codes "to") p))) ≡ true
  unfolding recipient_problems
  recipient_sound h = recipients_sound (get (codes "to") p) (ground arith)

  -- What the other problems do not say, an empty list of problems splits into.
  groups :
      is_empty (field_problems p) ≡ true
      → (is_empty (identity_problems p) ≡ true)
        × (is_empty (sender_problems p) ≡ true)
        × (is_empty (reply_problems p) ≡ true)
        × (is_empty (recipient_problems p) ≡ true)
  unfolding field_problems
  groups h =
      let (_, h₁) = is_empty-append (map boolean_at (boolean_keys p)) _ h in
      let (identity, h₂) = is_empty-append (identity_problems p) _ h₁ in
      let (sender, h₃) = is_empty-append (sender_problems p) _ h₂ in
      let (reply, h₄) = is_empty-append (reply_problems p) _ h₃ in
      let (_, h₅) = is_empty-append (reference_problems p) _ h₄ in
      let (recipient, _) = is_empty-append (recipient_problems p) _ h₅ in
      (identity, sender, reply, recipient)

  read_envelope-IsEnvelope : is_empty (field_problems p) ≡ true → IsEnvelope (read_envelope p)
  unfolding read_envelope
  read_envelope-IsEnvelope h =
      let (identity, sender, reply, recipient) = groups h in
      record {
        message_id = (identity_sound identity).0;
        room_topic = (identity_sound identity).1;
        from = (sender_sound sender).0;
        in_reply_to = (reply_sound reply).0;
        replies = (reply_sound reply).1;
        to = recipient_sound recipient;
      }

parse_cases :
    (v : Value) (e : Envelope)
    → parse_envelope v ≡ some e
    → (p : Fields) × (is_empty (field_problems p) ≡ true) × (read_envelope p ≡ e)
unfolding parse_envelope envelope_problems
parse_cases (obj p) e h = (p, ground arith, ground arith)
parse_cases _ e h = cc

-- Whatever the payload, a parsed envelope has a message id of 32 hex characters, travels on central
-- or on a room topic, names its sender by 64 lowercase hex characters, carries the id that it
-- replies to (32 hex characters) if its kind is one of those that need it, and, when it names
-- recipients, names 1 to 32 of them by 64 lowercase hex characters.
pub parse_envelope-IsEnvelope :
    (v : Value) (e : Envelope) → parse_envelope v ≡ some e → IsEnvelope e
parse_envelope-IsEnvelope v e h =
    let (p, valid, read) = parse_cases v e h in
    subst IsEnvelope read (read_envelope-IsEnvelope p valid)
