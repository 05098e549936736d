-- ===== src/Tests/Moves.antt =====
-- The outbox: one row, written, polled and published.
use anvil_notify.Prelude.{◌+◌, refl, true, false, none, some, [], ◌∷◌, arith}
use anvil_notify.Common.Json.{null}
use anvil_notify.Outbox.Rows.{OutboxRow, Rows}
use anvil_notify.Outbox.Event.{Serde}
use anvil_notify.Outbox.Worker.{OutboxConfig, Surroundings, Confirm, Worker, poll_once}
use anvil_notify.Outbox.Runs.{Step, Reaches, Sound, reachable-Sound}
use anvil_notify.Outbox.Batch.{IsBatch, AskedInTurn, poll_asks}
use anvil_notify.Tests.{bob}

abbrev new_row : OutboxRow
new_row = record {
  id = "r1";
  event_id = "e1";
  event_type = "ORDER_PAID";
  payload = null;
  created_at = 5;
  fail_count = 0;
  status = "PENDING";
  locked_at = none;
  published_at = none;
}

abbrev empty_outbox : Worker
empty_outbox = record { step = 0; rows = []; published = [] }

abbrev written_outbox : Worker
written_outbox = record empty_outbox { rows = new_row ∷ [] }

abbrev config : OutboxConfig
config = record { batch_size = 50; max_publish_failures = 5; stale_lock_timeout_secs = 300 }

abbrev serde : Serde
serde = record {
  recipients = λ v. some (bob ∷ []);
  from_override = λ v. none;
  attachments = λ v. none;
  send_mode = λ v. none;
  group_retry_mode = λ v. none;
  send_at = λ v. none;
  priority = λ v. none;
  metadata = λ v. none;
}

abbrev all_well : Surroundings
all_well = record {
  serde = serde;
  now = λ n. n + 100;
  db_fault = λ n. none;
  locked = λ n id. false;
  broker = λ n event. Confirm.ack;
  connected = λ n. true;
}

written_reached : Reaches config empty_outbox written_outbox
written_reached =
    Reaches.then_step (Reaches.start empty_outbox) (Step.written new_row empty_outbox refl refl)

reachable-Sound_example : Sound config (poll_once all_well config written_outbox).1
reachable-Sound_example =
    reachable-Sound config empty_outbox (poll_once all_well config written_outbox).1 (omega arith)
      (Reaches.then_step written_reached (Step.polled all_well written_outbox)) tt

abbrev three_rows : Rows
three_rows =
    record new_row { id = "r2"; created_at = 9 } ∷ new_row ∷ record new_row { id = "r3" } ∷ []

abbrev three_waiting : Worker
three_waiting = record empty_outbox { rows = three_rows }

poll_asks_example :
    let w' = (poll_once all_well config three_waiting).1 in
    (batch : Rows) × IsBatch (λ id. false) 50 three_rows batch
    × AskedInTurn all_well config 0 w'.step batch [] w'.published
poll_asks_example = poll_asks all_well config three_waiting refl
