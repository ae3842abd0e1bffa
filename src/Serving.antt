-- ===== src/Serving.antt =====
-- src/serve.ts: the procedures that this server answers by a local command, and what a command's end
-- gives the caller. The advertisement is the macula library's: whether it succeeds is an argument,
-- and a handle stands for it. JSON is read by a library, and the patterns of a secret are a
-- parameter. The process group, its pipes and the timer are left out.
pub mod Registry
pub mod Standing
pub mod Replies
use macula_mcp.Base.{
  ℕ, ◌+◌, ◌*◌, ◌≡◌, Bool, true, false, not, ◌&&◌, Option, none, some, List, [], ◌∷◌, ◌++◌, map,
  Text, same, trim, any, keep, find, ◌==◌, get_or, is_some, if◌then◌else◌,
}
use macula_mcp.Json.{Value, null}
use macula_mcp.Secrets.{SecretMatch, find_likely_secret}

pub data ServedConfidential : Type 0 where
  preferred required off : ServedConfidential

abbrev pub is_same_confidential : ServedConfidential → ServedConfidential → Bool
is_same_confidential preferred preferred = true
is_same_confidential required required = true
is_same_confidential off off = true
is_same_confidential _ _ = false

-- `served` is the handle of the advertisement.
pub record Registration : Type 0 where
  pub name : Text
  pub procedure : Text
  pub exec : Text
  pub exec_timeout_ms : ℕ
  pub confidential : Option ServedConfidential
  pub served : ℕ

pub record ServeArgs : Type 0 where
  pub name : Text
  pub exec : Text
  pub exec_timeout_seconds : Option ℕ
  pub confidential : Option ServedConfidential

abbrev pub default_exec_timeout_seconds : ℕ
default_exec_timeout_seconds = 10

-- `flights` are the serves that await their advertisement, `live` the handles of those that stand,
-- and `stopping` the handles whose stop was called.
pub record Served : Type 0 where
  pub registrations : List Registration
  pub flights : List Registration
  pub live : List ℕ
  pub stopping : List ℕ
  pub next_handle : ℕ

pub data ServeReply : Type 0 where
  registered : (procedure : Text) (serving : List Text) → ServeReply
  other_confidential : ServeReply
  advertising : (handle : ℕ) → ServeReply

abbrev pub is_named : Text → Registration → Bool
is_named name r = same r.name name

abbrev pub serving : List Registration → List Text
serving = map (λ r. r.procedure)

-- The command and timeout of `name` change where they stand.
abbrev pub recommanded : ServeArgs → List Registration → List Registration
recommanded args [] = []
recommanded args (r ∷ rs) =
    (if is_named args.name r
      then record r {
        exec = args.exec;
        exec_timeout_ms = get_or args.exec_timeout_seconds default_exec_timeout_seconds * 1000;
      }
      else r)
    ∷ recommanded args rs

-- registrations.set: a name that is there keeps its place.
abbrev pub with_registration : Registration → List Registration → List Registration
with_registration new [] = new ∷ []
with_registration new (r ∷ rs) =
    let rest = with_registration new rs in if is_named new.name r then new ∷ rs else r ∷ rest

module _ (own_procedure : Text → Text) where
  abbrev pub registration_of : ServeArgs → ℕ → Registration
  registration_of args handle = record {
    name = args.name;
    procedure = own_procedure args.name;
    exec = args.exec;
    exec_timeout_ms = get_or args.exec_timeout_seconds default_exec_timeout_seconds * 1000;
    confidential = args.confidential;
    served = handle;
  }

  -- serve up to its await.
  unfoldable pub serve : ServeArgs → Served → Served × ServeReply
  serve args s = elim (find (is_named args.name) s.registrations) [
    | some existing ↦
        if is_same_confidential (get_or existing.confidential preferred)
          (get_or args.confidential preferred)
        then (
          record s { registrations = recommanded args s.registrations },
          registered existing.procedure (serving s.registrations),
        )
        else (s, other_confidential)
    | none ↦ (
      record s {
        flights = s.flights ++ registration_of args s.next_handle ∷ [];
        next_handle = s.next_handle + 1;
      },
      advertising s.next_handle,
    )
  ]

-- serve behind its await.
unfoldable pub advertised : ℕ → Bool → Served → Served
advertised handle ok s = elim (find (λ r. r.served == handle) s.flights) [
  | none ↦ s
  | some r ↦
      let landed = record s { flights = keep (λ f. not (f.served == handle)) s.flights } in
      if ok
      then record landed {
        registrations = with_registration r s.registrations;
        live = s.live ++ handle ∷ [];
      }
      else landed
]

-- unserve up to its await: the registration goes first, and the advertisement stands until its stop
-- succeeds, or for good where that fails, which the source ignores.
unfoldable pub unserve : Text → Served → Served × Bool
unserve name s = elim (find (is_named name) s.registrations) [
  | none ↦ (s, false)
  | some r ↦ (
    record s {
      registrations = keep (λ q. not (is_named name q)) s.registrations;
      stopping = s.stopping ++ r.served ∷ [];
    },
    true,
  )
]

-- A stop that was called succeeds.
unfoldable pub stopped : ℕ → Served → Served
stopped handle s =
    if any (λ h. h == handle) s.stopping
    then record s { live = keep (λ h. not (h == handle)) s.live }
    else s

abbrev pub unserve_each : List Text → Served → Served
unserve_each [] s = s
unserve_each (n ∷ ns) s = unserve_each ns (unserve n s).0

unfoldable pub stop_all : Served → Served
stop_all s = unserve_each (map (λ r. r.name) s.registrations) s

-- The end of a command; no exit code where a signal ended it.
pub record ExecEnd : Type 0 where
  pub timed_out : Bool
  pub code : Option ℕ
  pub stdout : Text
  pub stderr : Text

pub data ExecReply : Type 0 where
  replied : Value → ExecReply
  exec_timed_out not_json : ExecReply
  exited : (code : Option ℕ) (stderr : Text) → ExecReply
  leaks : SecretMatch → ExecReply

abbrev pub is_zero : Option ℕ → Bool
is_zero none = false
is_zero (some c) = c == 0

module _ (parse_json : Text → Option Value) (scan_string : Text → Option Text) where
  abbrev pub scanned : Value → Option SecretMatch → ExecReply
  scanned v none = replied v
  scanned v (some m) = leaks m

  abbrev pub parsed_reply : Option Value → ExecReply
  parsed_reply none = not_json
  parsed_reply (some v) = scanned v (find_likely_secret scan_string v [])

  abbrev pub stdout_reply : Text → ExecReply
  stdout_reply [] = replied null
  stdout_reply (c ∷ s) = parsed_reply (parse_json (c ∷ s))

  -- The close of runExec.
  unfoldable pub run_exec : ExecEnd → ExecReply
  run_exec e =
      if e.timed_out
      then exec_timed_out
      else if is_zero e.code
      then stdout_reply (trim e.stdout)
      else exited e.code (trim e.stderr)
