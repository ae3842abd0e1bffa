-- ===== src/Machine.antt =====
-- src/machine_transcript.ts: the file that the sessions of one machine share.
use macula_mcp.Base.{List, []}
use macula_mcp.Ring.{RingRow}
use macula_mcp.NodeEvents.{EventLog}

pub record Db : Type 0 where
  pub rings : List RingRow
  pub log : EventLog

abbrev pub empty_db : Db
empty_db = record { rings = []; log = record { events = []; next_seq = 1 } }
