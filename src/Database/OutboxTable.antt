-- ===== src/Database/OutboxTable.antt =====
-- The outbox table (internal/database/outbox.go). GORM runs each write in a transaction of its own.
pub mod Pending
pub mod Front
use Prim.Native.String.{String, len, slice}
use go_chat_backend.Common.{
  ℕ, Bool, true, false, not, ◌&&◌, ◌||◌, Option, none, some, List, [], ◌∷◌, ltb, min, if◌then◌else◌,
  ◌==◌, take, length, ◌+◌,
}
use go_chat_backend.Common.Rows.{select, update, order_by}
use go_chat_backend.Database.{
  Outbox, Tables, Db, Env, Error, Result, ok, err, Exec, pure, statement, gets, transaction, ◌>>=◌,
  ◌>>◌, continue, failed,
}

abbrev pub outbox_id : Outbox → ℕ
outbox_id r = r.id

-- published_at IS NULL
abbrev pub is_pending : Outbox → Bool
is_pending r = elim r.published_at [ none ↦ true | some t ↦ false ]

abbrev pub is_in : List ℕ → ℕ → Bool
is_in [] n = false
is_in (k ∷ ks) n = k == n || is_in ks n

-- Writes a new list of outbox rows.
abbrev pub set_outbox : (List Outbox → List Outbox) → Exec (Unit {0})
set_outbox f db = (ok tt, record db { tables = record db.tables { outbox = f db.tables.outbox } })

unfoldable pub fetch_outbox : Env → ℕ → Exec (List Outbox)
fetch_outbox env limit = do
  statement env 0
  gets λ t. take limit (order_by outbox_id (select is_pending t.outbox))

abbrev pub stamp : ℕ → Outbox → Outbox
stamp now r = record r { published_at = some now }

unfoldable pub mark_outbox_published : Env → List ℕ → Exec (Unit {0})
mark_outbox_published env [] = pure tt
mark_outbox_published env (id ∷ ids) =
    transaction env
      (statement env 0 >> set_outbox (update (λ r. is_in (id ∷ ids) (outbox_id r)) (stamp env.now)))

-- Go counts bytes here, and this counts characters.
pub truncate : String → String
truncate reason = if ltb 500 (len reason) then slice reason 0 500 else reason

abbrev pub note_failure : String → Outbox → Outbox
note_failure reason r = record r { attempts = r.attempts + 1; last_error = some reason }

unfoldable pub mark_outbox_failed : Env → ℕ → String → Exec (Unit {0})
mark_outbox_failed env id reason = transaction env (
    statement env 0
    >> set_outbox (update (λ r. outbox_id r == id) (note_failure (truncate reason))))

-- published_at IS NOT NULL AND published_at < t
abbrev pub published_before : ℕ → Outbox → Bool
published_before t r = elim r.published_at [ none ↦ false | some p ↦ ltb p t ]

unfoldable pub delete_outbox_published_before : Env → ℕ → Exec ℕ
delete_outbox_published_before env t = transaction env (do
  statement env 0
  gone ← gets (λ db. length (select (published_before t) db.outbox))
  set_outbox (select (λ r. not (published_before t r)))
  pure gone)

-- min(created_at), NULL on no rows.
abbrev pub earliest : List Outbox → Option ℕ
earliest [] = none
earliest (r ∷ rs) = elim (earliest rs) [
  | none ↦ some r.created_at
  | some t ↦ some (min r.created_at t)
]

pub record Stats : Type 0 where
  pub pending : ℕ
  pub oldest : Option ℕ

unfoldable pub outbox_stats : Env → Exec Stats
outbox_stats env = do
  statement env 0
  gets λ t. record {
    pending = length (select is_pending t.outbox);
    oldest = earliest (select is_pending t.outbox);
  }
