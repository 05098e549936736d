-- ===== src/Tests/Retries.antt =====
-- A retry over the HTTP API of one failed delivery, with the broker up and with the broker down.
use anvil_notify.Prelude.{◌≡◌, ◌+◌, refl, true, false, none, [], ◌∷◌, arith}
use anvil_notify.Common.Error.{ok, err, queue}
use anvil_notify.Common.Json.{text}
use anvil_notify.Common.Status.{try_from}
use anvil_notify.Common.Email.{is_valid_email}
use anvil_notify.Common.Event.{group_retry_try_from}
use anvil_notify.Filter.{new, check}
use anvil_notify.Store.Table.{Table}
use anvil_notify.Store.Log.{reset_for_retry, reset_all_failed_for_event, revert_to_failed}
use anvil_notify.Store.Invariant.{IsValid}
use anvil_notify.Store.Queries.{
  by_created_at, to_log, to_logs, logs_of, get_by_event_id, get_recipients_for_event, joined,
  delivery_detail, get_event_delivery_detail,
}
use anvil_notify.Api.Publisher.{
  Reply, Lapin, open_channel, channel, await_confirm, try_publish, publish_from, publish,
}
use anvil_notify.Api.Replay.{
  Serde, Decoded, check_from_override, expired, check_expiry, replay_recipients, demand,
  demand_optional, stored_copies, stored_send_mode, stored_group_retry_mode, check_copies,
  check_payload, replay,
}
use anvil_notify.Api.Retry.{
  ApiState, Site, store, send_body, send_replay, republish_event, or_revert, republish_or_revert,
  retry_recipient, answer_reset, retry_event,
}
use anvil_notify.Api.Retry.Published.{Published, retry_event-Published, retry_recipient-Published}
use anvil_notify.Api.Retry.Restored.{statuses, retry_event_restores}
use anvil_notify.Tests.{lower, no_rules, bob_row}

abbrev failed_table : Table
failed_table = record bob_row { status = "FAILED"; payload = text "hello" } ∷ []

abbrev serde : Serde
serde = record {
  from_override = λ v. Decoded.malformed "no object";
  attachments = λ v. Decoded.decoded [];
  recipients = λ v. Decoded.decoded [];
  to_vec = λ event. Decoded.decoded (1 ∷ 2 ∷ []);
}

abbrev broker_up : Lapin
broker_up = record {
  connected = λ n. true;
  connect = λ n. true;
  create_channel = λ n. true;
  confirm_select = λ n. true;
  exchange_declare = λ n. true;
  basic_publish = λ n body. none;
  confirm = λ n body. Reply.confirmation true;
}

abbrev api : ApiState
api = record {
  filter = new lower no_rules;
  to_lowercase = lower;
  serde = serde;
  lapin = broker_up;
  now = λ n. n + 9;
  db_fault = λ n. none;
  others = λ n. [];
}

abbrev api_down : ApiState
api_down = record api { lapin = record broker_up { connected = λ n. false; connect = λ n. false } }

abbrev site : Site
site = record {
  step = 0;
  table = failed_table;
  publisher = record { step = 0; opened = true; sent = [] };
}

accepted : (retry_event api "e1" site).0 ≡ ok ("bob@mail.example" ∷ [])
unfolding new check try_from is_valid_email group_retry_try_from reset_for_retry
    reset_all_failed_for_event revert_to_failed by_created_at to_log to_logs logs_of get_by_event_id
    get_recipients_for_event joined delivery_detail get_event_delivery_detail open_channel channel
    await_confirm try_publish publish_from publish check_from_override expired check_expiry
    replay_recipients demand demand_optional stored_copies stored_send_mode stored_group_retry_mode
    check_copies check_payload replay store send_body send_replay republish_event or_revert
    republish_or_revert answer_reset retry_event
accepted = refl

retry_event-Published_example :
    Published api "e1"
      ("bob@mail.example" ∷ [])
      site.publisher
      (retry_event api "e1" site).1.publisher
retry_event-Published_example =
    retry_event-Published api "e1" ("bob@mail.example" ∷ []) site accepted

one_accepted : (retry_recipient api "e1" "bob@mail.example" site).0 ≡ ok tt
unfolding retry_recipient new check try_from is_valid_email group_retry_try_from reset_for_retry
    reset_all_failed_for_event revert_to_failed by_created_at to_log to_logs logs_of get_by_event_id
    get_recipients_for_event joined delivery_detail get_event_delivery_detail open_channel channel
    await_confirm try_publish publish_from publish check_from_override expired check_expiry
    replay_recipients demand demand_optional stored_copies stored_send_mode stored_group_retry_mode
    check_copies check_payload replay store send_body send_replay republish_event or_revert
    republish_or_revert answer_reset retry_event
one_accepted = refl

retry_recipient-Published_example :
    Published api "e1"
      ("bob@mail.example" ∷ [])
      site.publisher
      (retry_recipient api "e1" "bob@mail.example" site).1.publisher
retry_recipient-Published_example =
    retry_recipient-Published api "e1" "bob@mail.example" site one_accepted

refused :
    (retry_event api_down "e1" site).0
    ≡ err (queue "Publisher reconnect failed: Publisher: failed to connect to RabbitMQ")
unfolding new check try_from is_valid_email group_retry_try_from reset_for_retry
    reset_all_failed_for_event revert_to_failed by_created_at to_log to_logs logs_of get_by_event_id
    get_recipients_for_event joined delivery_detail get_event_delivery_detail open_channel channel
    await_confirm try_publish publish_from publish check_from_override expired check_expiry
    replay_recipients demand demand_optional stored_copies stored_send_mode stored_group_retry_mode
    check_copies check_payload replay store send_body send_replay republish_event or_revert
    republish_or_revert answer_reset retry_event
refused = refl

failed_table-IsValid : IsValid failed_table
unfolding try_from
failed_table-IsValid = ((omega arith, refl), refl, tt)

retry_event_restores_example :
    statuses (retry_event api_down "e1" site).1.table ≡ statuses failed_table
retry_event_restores_example =
    retry_event_restores api_down (λ n. (refl, refl)) "e1"
      (queue "Publisher reconnect failed: Publisher: failed to connect to RabbitMQ") site
      failed_table-IsValid refused
