-- ===== src/Tests/Base.antt =====
-- The store, the filter, the delays and the status texts.
use anvil_notify.Prelude.{
  none, some, map, length, ◌≡◌, refl, ◌↔◌, ◌≤◌, ◌+◌, ◌*◌, ◌^◌, min, arith, true, false, [], ◌∷◌,
}
use anvil_notify.Common.Error.{ok, is_ok}
use anvil_notify.Common.Status.{sent, as_str, try_from}
use anvil_notify.Common.Event.{AttachmentRef}
use anvil_notify.Common.Attachment.{validate, IsUsable, validate_iff}
use anvil_notify.Common.RoundTrip.{try_from_iff}
use anvil_notify.Filter.{new, check, is_passthrough}
use anvil_notify.Filter.Laws.{Permits, check-new_iff, check-is_passthrough}
use anvil_notify.Store.Table.{Row, Table, lookup}
use anvil_notify.Store.Invariant.{IsValid, Statement, execute, execute-IsValid}
use anvil_notify.Store.Log.{reset_all_failed_for_event, revert_to_failed}
use anvil_notify.Store.Compensation.{revert_to_failed-reset}
use anvil_notify.Store.Transitions.{Outcome, execute-Outcome}
use anvil_notify.Consumer.Retry.{retry_delay_ms}
use anvil_notify.Consumer.Retry.Backoff.{retry_delay_exact}
use anvil_notify.Tests.{lower, no_rules, blocks_bob, bob_row}

try_from_iff_example : (try_from "SENT" ≡ ok sent) ↔ ("SENT" ≡ as_str sent)
try_from_iff_example = try_from_iff "SENT" sent

one-IsValid : IsValid (bob_row ∷ [])
unfolding try_from
one-IsValid = ((omega arith, refl), refl, tt)

execute-IsValid_example :
    IsValid (execute 9 (Statement.failed "e1" "bob@mail.example" "421" false) (bob_row ∷ []))
execute-IsValid_example =
    execute-IsValid 9 (Statement.failed "e1" "bob@mail.example" "421" false) (bob_row ∷ [])
      one-IsValid

abbrev failed_row : Row
failed_row = record bob_row { status = "FAILED" }

abbrev failed_log : Table
failed_log = failed_row ∷ record bob_row { recipient_id = "eve@mail.example" } ∷ []

execute-Outcome_example :
    let log' = execute 9 (Statement.reset_one "e1" "bob@mail.example") failed_log in
    (r' : Row) × (lookup "e1" "bob@mail.example" log' ≡ some r')
    × Outcome 9 (Statement.reset_one "e1" "bob@mail.example") failed_row r'
execute-Outcome_example =
    execute-Outcome 9 (Statement.reset_one "e1" "bob@mail.example") "e1" "bob@mail.example"
      failed_log failed_row refl

check-new_iff_example :
    (is_ok (check lower (new lower blocks_bob) "eve@mail.example") ≡ true)
    ↔ Permits lower blocks_bob "eve@mail.example"
check-new_iff_example = check-new_iff lower blocks_bob "eve@mail.example"

check-is_passthrough_example : check lower (new lower no_rules) "eve@mail.example" ≡ ok tt
unfolding is_passthrough new
check-is_passthrough_example =
    check-is_passthrough lower (new lower no_rules) "eve@mail.example" refl

retry_delay_exact_example :
    (retry_delay_ms 1000 4 ≡ min (1000 * 2 ^ min 4 10) 1800000)
    × (1 ≤ retry_delay_ms 1000 4)
    × (retry_delay_ms 1000 4 ≤ retry_delay_ms 1000 (4 + 1))
retry_delay_exact_example = retry_delay_exact 1000 4 (omega arith)

failed_log-IsValid : IsValid failed_log
unfolding try_from
failed_log-IsValid = ((omega arith, refl), refl, ((omega arith, refl), refl, tt))

revert_to_failed-reset_example :
    let (recipients, t1) = reset_all_failed_for_event 8 "e1" failed_log in
    let (n, t2) = revert_to_failed 9 "e1" recipients "broker down" t1 in
    (map (λ r. r.status) t2 ≡ map (λ r. r.status) failed_log) × (n ≡ length recipients)
revert_to_failed-reset_example =
    revert_to_failed-reset 8 9 "e1" "broker down" failed_log failed_log-IsValid

abbrev invoice : AttachmentRef
invoice = record {
  url = "https://files.example/invoice.pdf";
  filename = "invoice.pdf";
  content_type = "application/pdf";
  fetch_token = none;
  max_age_secs = some 60;
}

validate_iff_example : (validate invoice 1000 61000 ≡ none) ↔ IsUsable invoice 1000 61000
validate_iff_example = validate_iff invoice 1000 61000
