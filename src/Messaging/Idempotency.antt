-- ===== src/Messaging/Idempotency.antt =====
-- `SequelizeMessageIdempotency.runOnce` (src/shared/infrastructure/queue). The key of a processed
-- message is its id and its queue (migration 20261020000001).
use lakira_backend.Base.{
  ℕ, Bool, true, ◌&&◌, ◌||◌, Option, none, some, ◌∷◌, length, ltb, any, if◌then◌else◌,
}
use lakira_backend.Text.{Text, text_eq, is_empty}
use lakira_backend.Store.{
  Db, Action, ok, ◌>>◌, pure, throw, modify_db, run_in_transaction, terminal_message,
}

abbrev pub max_message_id_length : ℕ
max_message_id_length = 36

pub data IdempotencyOutcome : Type 0 where
  processed duplicate : IdempotencyOutcome

-- A messageId that is no string, is empty or is too long.
abbrev pub is_unusable : Option Text → Bool
is_unusable none = true
is_unusable (some id) = is_empty id || ltb max_message_id_length (length id)

abbrev pub is_key : Text → Text → Text × Text → Bool
is_key message_id queue (i, q) = text_eq i message_id && text_eq q queue

unfoldable pub was_processed : Text → Text → Db → Bool
was_processed message_id queue d = any (is_key message_id queue) d.processed

abbrev pub record_key : Text → Text → Db → Db
record_key message_id queue d = record d { processed = (message_id, queue) ∷ d.processed }

-- The insert of the key that violates the primary key is `DuplicateMessage`, which rolls back; a
-- violation that `work` raises is an error like any other.
abbrev pub run_new : Text → Text → Action (Unit {0}) → Action IdempotencyOutcome
run_new message_id queue work =
    run_in_transaction (do modify_db (record_key message_id queue); work; pure processed)

abbrev pub run_usable : Text → Text → Action (Unit {0}) → Action IdempotencyOutcome
run_usable message_id queue work w =
    if was_processed message_id queue w.db
    then (ok duplicate, w)
    else run_new message_id queue work w

unfoldable pub run_once : Option Text → Text → Action (Unit {0}) → Action IdempotencyOutcome
run_once none queue work w = throw terminal_message w
run_once (some message_id) queue work w =
    if is_unusable (some message_id)
    then throw terminal_message w
    else run_usable message_id queue work w
