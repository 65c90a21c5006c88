-- ===== src/Examples/SyncRuns.antt =====
-- The theorems on the engine at concrete inputs.
use nexus_mail.Base.{
  ℕ, ◌+◌, ◌-◌, ◌*◌, ◌/◌, ◌^◌, ◌≤◌, ◌<◌, min, List, [], ◌∷◌, ◌≡◌, refl, not, map, filter, ◌==◌,
  arith,
}
use nexus_mail.Base.Text.{ascii}
use nexus_mail.Sync.Sqlite.{sqlite}
use nexus_mail.Sync.Watch.{drain_queue, watch}
use nexus_mail.Sync.Stamp.{Guarded}
use nexus_mail.Sync.Stamp.Loop.{watch-Guarded}
use nexus_mail.Store.Operations.{claim_operations}
use nexus_mail.Sync.Backoff.{second, queue_retry_at, backoff}
use nexus_mail.Sync.Backoff.Bounds.{queue_retry_at-delay, backoff-bounds}
use nexus_mail.Sync.Send.{submit}
use nexus_mail.Sync.Outcomes.{outcomes, settled}
use nexus_mail.Sync.Outcomes.Sends.{submit_verdict, outcomes-submit}
use nexus_mail.Sync.Outcomes.Drain.{settled_after}
use nexus_mail.Model.{FlagUpdate}
use nexus_mail.Model.Flags.{flag_flagged}
use nexus_mail.Store.{Db}
use nexus_mail.Store.Delta.{list_message_uids, set_message_flags, delete_messages_by_uid}
use nexus_mail.Store.Messages.{in_folder}
use nexus_mail.Sync.Delta.{missing_uids}
use nexus_mail.Sync.Delta.Reconcile.{with_flags, is_reported, reconciled-in_folder}
use nexus_mail.Sync.Outcomes.Returns.{Working, Reachable, drain_queue-returns}
use nexus_mail.Smtp
use nexus_mail.Smtp.{Envelope}
use nexus_mail.Smtp.Client.{Wire, send}
use nexus_mail.Smtp.Client.Acceptable.{
  Temporary, error_is_permanent, is_acceptable, send-is_permanent,
}
use nexus_mail.Store.Operations.{is_empty, is_nil}
use nexus_mail.Base.Text.{codes}
use nexus_mail.Base.{false, true, none}
use nexus_mail.Model.Errors.{ok}
use nexus_mail.Examples.Data.{mailbox, server, world, keep_one, sending}

watch-Guarded_example : Guarded (watch ascii server (sqlite ascii) 2 1 1 keep_one 0 world).1.trace
watch-Guarded_example = watch-Guarded ascii server (sqlite ascii) 2 1 1 keep_one 0 world tt

outcomes-submit_example :
    outcomes (submit ascii server (sqlite ascii) sending world).1.trace
    ≡ (
      sending.id,
      submit_verdict ascii server (sqlite ascii) sending (server.outbox_get sending.outbox 100),
    )
      ∷ []
outcomes-submit_example = outcomes-submit ascii server (sqlite ascii) sending world

queue_retry_at-delay_example :
    (queue_retry_at 5 3 ≡ 5 + min (300 * second) (30 * second * 2 ^ 3))
    × (5 + 30 * second ≤ queue_retry_at 5 3)
    × (queue_retry_at 5 3 ≤ 5 + 300 * second)
queue_retry_at-delay_example = queue_retry_at-delay 5 3

backoff-bounds_example :
    let delay = min (300 * second) (2 * second * 2 ^ 4) in
    (delay - delay / 4 < backoff (λ spread. spread / 2) 4)
    × (backoff (λ spread. spread / 2) 4 ≤ delay)
    × (0 < backoff (λ spread. spread / 2) 4)
backoff-bounds_example = backoff-bounds (λ spread. spread / 2) 4 (λ spread h. omega arith)

-- The server knows UIDs 32 and 33, and 33 has lost its flag.
abbrev answer : List FlagUpdate
answer = record { uid = 32; flags = flag_flagged ∷ [] } ∷ record { uid = 33; flags = [] } ∷ []

abbrev reconciled : Db
reconciled =
    delete_messages_by_uid 1 (missing_uids (list_message_uids 1 mailbox) answer)
      (set_message_flags 1 answer mailbox)

reconciled-in_folder_example :
    (in_folder 1 reconciled
      ≡ map (with_flags answer) (filter (is_reported answer) (in_folder 1 mailbox)))
    × (filter (λ m. not (m.folder_id == 1)) reconciled.messages
        ≡ filter (λ m. not (m.folder_id == 1)) mailbox.messages)
reconciled-in_folder_example = reconciled-in_folder 1 answer mailbox

sqlite-Working : Working (sqlite ascii)
sqlite-Working = record {
  claims = λ now account_id limit s. refl;
  lists = λ account_id s. refl;
  marks_done = λ id s. refl;
  marks_dropped = λ id s. refl;
  marks_failed = λ id why at s. refl;
  gives_up = λ id why s. refl;
}

server-Reachable : Reachable server
server-Reachable = record { lasts = λ s. refl; dials = λ account_id s. refl }

drain_queue-returns_example :
    ((drain_queue ascii server (sqlite ascii) 1 world).0 ≡ ok tt)
    × (settled (drain_queue ascii server (sqlite ascii) 1 world).1.trace
        ≡ settled_after ascii server (sqlite ascii) (claim_operations 100 1 100 mailbox) [])
drain_queue-returns_example =
    drain_queue-returns ascii server (sqlite ascii) 1 (claim_operations 100 1 100 mailbox) world
      sqlite-Working server-Reachable refl

-- A connection that takes everything; its state counts the commands.
abbrev wire : Wire
wire = record {
  State = ℕ;
  ctx_err = λ s. none;
  mail = λ from size a b s. (ok tt, s + 1);
  rcpt = λ to s. (ok tt, s + 1);
  data_start = λ s. (ok tt, s + 1);
  write = λ raw s. (ok tt, s + 1);
  finish = λ s. (ok tt, s + 1);
}

wire-Temporary : Temporary wire
wire-Temporary = record {
  of_context = λ s e h. cc;
  of_mail = λ from size a b s. refl;
  of_rcpt = λ to s. refl;
  of_data = λ s. refl;
  of_write = λ raw s. refl;
  of_finish = λ s. refl;
}

-- A server that takes three bytes, and a message of four.
abbrev small : Smtp.Capabilities
small = record {
  eight_bit_mime = false;
  smtp_utf8 = false;
  max_message_size = 3;
  start_tls = true;
  auth = [];
}

abbrev letter : Envelope
letter = record { from = codes "a@example.org"; to = codes "b@example.org" ∷ [] }

send-is_permanent_example :
    (error_is_permanent (send wire small letter (1 ∷ 2 ∷ 3 ∷ 4 ∷ []) 0).0
      ≡ not (is_acceptable small letter (1 ∷ 2 ∷ 3 ∷ 4 ∷ [])))
    × (is_acceptable small letter (1 ∷ 2 ∷ 3 ∷ 4 ∷ []) ≡ false
        → (send wire small letter (1 ∷ 2 ∷ 3 ∷ 4 ∷ []) 0).1 ≡ 0)
unfolding is_empty is_nil
send-is_permanent_example =
    send-is_permanent wire small letter (1 ∷ 2 ∷ 3 ∷ 4 ∷ []) 0 wire-Temporary refl
