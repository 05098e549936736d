-- ===== src/Api/Publisher.antt =====
-- crates/api/src/publisher.rs. The client of RabbitMQ is a parameter: how each of its calls ends at a
-- step. One request holds the mutex from the beginning to the end of `publish`.
pub mod Confirmed
use anvil_notify.Prelude.{
  ℕ, zero, suc, ◌+◌, Bool, true, false, ◌&&◌, String, concat, Option, none, some, List, [], ◌∷◌,
  ◌==◌, if◌then◌else◌,
}
use anvil_notify.Common.Error.{Result, ok, err, queue}

-- The end of the wait for a confirm: none in ten seconds, an answer (true for an Ack, false for a Nack),
-- or an error of the channel.
pub data Reply : Type 0 where
  timed_out : Reply
  confirmation : Bool → Reply
  broken : String → Reply

-- Each call of `open_channel` succeeds or fails; `basic_publish` may fail with a text.
pub record Lapin : Type 0 where
  pub connected : ℕ → Bool
  pub connect : ℕ → Bool
  pub create_channel : ℕ → Bool
  pub confirm_select : ℕ → Bool
  pub exchange_declare : ℕ → Bool
  pub basic_publish : ℕ → List ℕ → Option String
  pub confirm : ℕ → List ℕ → Reply

-- Whether the guarded pair is there, and the messages that were given to the broker, newest first,
-- each with what came of its confirm.
pub record Publisher : Type 0 where
  pub step : ℕ
  pub opened : Bool
  pub sent : List (List ℕ × Reply)

-- What `open_channel` reports, if it fails: the context of the call that failed.
unfoldable pub open_channel : Lapin → ℕ → Option String
open_channel l n =
    if l.connect n
    then if l.create_channel n
      then if l.confirm_select n
        then if l.exchange_declare n then none else some "Publisher: exchange_declare"
        else some "Publisher: confirm_select"
      else some "Publisher: create channel"
    else some "Publisher: failed to connect to RabbitMQ"

abbrev pub advance : Publisher → Publisher
advance p = record p { step = p.step + 1 }

-- The channel of an attempt: the one that is there, or a new one.
unfoldable pub channel : Lapin → Publisher → Result (Unit {0}) × Publisher
unfolding open_channel
channel l p = if p.opened && l.connected p.step then (ok tt, p) else elim (open_channel l p.step) [
  | none ↦ (ok tt, record p { step = p.step + 1; opened = true })
  | some e ↦ (err (queue (concat ("Publisher reconnect failed: " ∷ e ∷ []))), advance p)
]

unfoldable pub await_confirm : Reply → Result (Unit {0})
await_confirm timed_out = err (
    queue
      "Publisher: broker confirm timed out after 10s — message may or may not have been persisted; retry the operation")
await_confirm (confirmation acked) = ok tt
await_confirm (broken e) = err (queue e)

-- One turn of the loop; no result means that the next one follows.
unfoldable pub try_publish : Lapin → List ℕ → ℕ → Publisher → Option (Result (Unit {0})) × Publisher
unfolding channel await_confirm
try_publish l body attempt p =
    let (ready, p1) = channel l p in
    elim ready [
      | err e ↦ (some (err e), p1)
      | ok _ ↦ elim (l.basic_publish p1.step body) [
        | none ↦
            let reply = l.confirm p1.step body in
            (
              some (await_confirm reply),
              record p1 { step = p1.step + 1; sent = (body, reply) ∷ p1.sent },
            )
        | some e ↦
            if attempt == 0
            then (none, record p1 { step = p1.step + 1; opened = false })
            else (some (err (queue e)), advance p1)
      ]
    ]

-- The attempts from one on, as many as are left of the two.
unfoldable pub publish_from : Lapin → List ℕ → ℕ → ℕ → Publisher → Result (Unit {0}) × Publisher
unfolding try_publish
publish_from l body attempt zero p = (err (queue "Publisher: publish failed after reconnect"), p)
publish_from l body attempt (suc left) p =
    let (result, p1) = try_publish l body attempt p in
    let rest = publish_from l body (attempt + 1) left p1 in
    elim result [ some r ↦ (r, p1) | none ↦ rest ]

unfoldable pub publish : Lapin → List ℕ → Publisher → Result (Unit {0}) × Publisher
unfolding publish_from
publish l body p = publish_from l body 0 2 p
