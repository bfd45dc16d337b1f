-- ===== src/Tests/Fixtures.antt =====
-- Concrete payloads for the `todos` contract: two devices that write one title.
use loomabase.Base.{ℕ, String, false, none, [], ◌∷◌}
use loomabase.Base.Int.{pos}
use loomabase.Error.{Result, ok}
use loomabase.Value
use loomabase.Value.{CrdtColumn, SyncPayload}
use loomabase.Schema.{fingerprint, todos_table}

-- Every column is taken to serialize to forty bytes.
abbrev pub forty : CrdtColumn → Result ℕ
forty column = ok 40

abbrev pub title_by : String → ℕ → String → CrdtColumn
title_by device clock title = record {
  value = Value.text title;
  metadata = record { lamport_clock = clock; device_id = device };
}

-- A client request that writes the title of the row `row`.
abbrev pub retitle : String → ℕ → String → String → SyncPayload
retitle device clock row title = record {
  protocol_version = 4;
  schema_fingerprint = fingerprint todos_table;
  source_device_id = device;
  source_lamport = clock;
  changes = record { todo_id = row; columns = ("title", title_by device clock title) ∷ [] } ∷ [];
  cursor = pos 0;
  has_more = false;
  cursor_reset = false;
  cursor_token = none;
  server_epoch = none;
  rejections = [];
}
