-- ===== src/Serving/Replies.antt =====
-- src/serve.ts: what a served command may reply.
use macula_mcp.Base.{
  ◌≡◌, ◌⊎◌, inl, inr, refl, sym, false, Option, none, some, [], ◌∷◌, Text, trim, any, Option-cases,
  Bool-cases, arith,
}
use macula_mcp.Json.{Value, null}
use macula_mcp.Secrets.{find_likely_secret, assert_no_likely_secret}
use macula_mcp.Secrets.Leaves.{texts, is_secret, assert_no_likely_secret_lem}
use macula_mcp.Serving.{ExecEnd, replied, is_zero, parsed_reply, stdout_reply, run_exec}

module _ (parse_json : Text → Option Value) (scan_string : Text → Option Text) where
  -- What may be replied for a trimmed output.
  abbrev pub MayReply : Text → Value → Type 0
  MayReply out v =
      ((out ≡ []) × (v ≡ null) ⊎ (parse_json out ≡ some v))
      × (any (is_secret scan_string) (texts v) ≡ false)

  parsed_reply-MayReply :
      (out : Text) (o : Option Value) (v : Value)
      → parse_json out ≡ o
      → parsed_reply parse_json scan_string o ≡ replied v
      → MayReply out v
  unfolding assert_no_likely_secret
  parsed_reply-MayReply out none v e h = cc
  parsed_reply-MayReply out (some w) v e h =
      elim (Option-cases (find_likely_secret scan_string w [])) [
        | inl clean ↦
            let w_is_v : w ≡ v = ground (arith) in
            (inr (rw (e, w_is_v) refl), ground (arith, assert_no_likely_secret_lem scan_string w))
        | inr (m, dirty) ↦ absurd (ground arith)
      ]

  stdout_reply-MayReply :
      (out : Text) (v : Value)
      → stdout_reply parse_json scan_string out ≡ replied v
      → MayReply out v
  unfolding assert_no_likely_secret find_likely_secret
  stdout_reply-MayReply [] v h =
      let nothing : v ≡ null = ground arith in
      (inl (refl, nothing), rw nothing (sym (assert_no_likely_secret_lem scan_string null)))
  stdout_reply-MayReply (c ∷ s) v h = parsed_reply-MayReply (c ∷ s) (parse_json (c ∷ s)) v refl h

  -- A caller is replied to only by a command that ended in time with exit code 0: with null when
  -- its trimmed output is empty, and otherwise with the JSON value of that output. In no case has
  -- the reply a text that the patterns match, nor a key that they match together with its text.
  pub run_exec-MayReply :
      (e : ExecEnd) (v : Value)
      → run_exec parse_json scan_string e ≡ replied v
      → (e.timed_out ≡ false) × (e.code ≡ some 0) × MayReply (trim e.stdout) v
  unfolding run_exec
  run_exec-MayReply e v h = elim (Bool-cases e.timed_out) [
    | inl late ↦ absurd (ground arith)
    | inr in_time ↦ elim (Bool-cases (is_zero e.code)) [
      | inr failed ↦ absurd (ground arith)
      | inl zero_code ↦
          (in_time, ground arith, stdout_reply-MayReply (trim e.stdout) v (ground arith))
    ]
  ]
