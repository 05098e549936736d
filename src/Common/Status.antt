-- ===== src/Common/Status.antt =====
-- crates/common/src/log.rs: the delivery status and its text in the database.
use anvil_notify.Prelude.{String, str_eq, if◌then◌else◌}
use anvil_notify.Common.Error.{Result, ok, err, unknown_status}

pub data NotificationStatus : Type 0 where
  pending sent failed blocked skipped : NotificationStatus

unfoldable pub as_str : NotificationStatus → String
as_str pending = "PENDING"
as_str sent = "SENT"
as_str failed = "FAILED"
as_str blocked = "BLOCKED"
as_str skipped = "SKIPPED"

unfoldable pub try_from : String → Result NotificationStatus
try_from s =
    if str_eq s "PENDING"
    then ok pending
    else if str_eq s "SENT"
    then ok sent
    else if str_eq s "FAILED"
    then ok failed
    else if str_eq s "BLOCKED"
    then ok blocked
    else if str_eq s "SKIPPED"
    then ok skipped
    else err (unknown_status s)
