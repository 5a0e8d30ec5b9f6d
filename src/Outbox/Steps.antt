-- ===== src/Outbox/Steps.antt =====
-- infra/outbox/local_queue.py: the calls on the outbox as its steps; `get` steps once a round.
use fdv.Base.{String, Option, none, some}
use fdv.Outbox.{OutboxEvent, LocalOutbox}
use fdv.Outbox.Calls.{
  enqueue, put_nowait, Round, served, passed, waits, get_round, ack, retry, dead_letter,
}

pub data OutboxCall : Type 0 where
  enqueuing : OutboxEvent → OutboxCall
  putting : OutboxEvent → OutboxCall
  getting : OutboxCall
  acking : String → OutboxCall
  retrying : String → Option String → OutboxCall
  burying : String → Option String → OutboxCall

abbrev pub after_round : Round → LocalOutbox
after_round (served e s) = s
after_round (passed s) = s
after_round (waits s) = s

-- A call that raises leaves the outbox as it is.
abbrev pub after_call : LocalOutbox → Option (OutboxEvent × LocalOutbox) → LocalOutbox
after_call s none = s
after_call s (some (e, t)) = t

unfoldable pub outbox_step : OutboxCall → LocalOutbox → LocalOutbox
unfolding enqueue put_nowait get_round ack retry dead_letter
outbox_step (enqueuing e) s = enqueue s e
outbox_step (putting e) s = put_nowait s e
outbox_step getting s = after_round (get_round s)
outbox_step (acking id) s = ack s id
outbox_step (retrying id last_error) s = after_call s (retry s id last_error)
outbox_step (burying id last_error) s = after_call s (dead_letter s id last_error)
