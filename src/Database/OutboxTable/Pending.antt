-- ===== src/Database/OutboxTable/Pending.antt =====
-- The waiting rows as a queue of ids (internal/database/outbox.go).
use mathlib.Core.Path.{fun_ext}
use go_chat_backend.Common.{
  ℕ, zero, suc, ◌≤◌, ◌≡◌, refl, ap, sym, subst, ◌∙◌, ◌⊎◌, inl, inr, Bool, true, false, not, ◌&&◌,
  ◌||◌, List, [], ◌∷◌, map, arith, ◌==◌, if◌then◌else◌, Bool-cases, take, drop,
}
use Prim.Native.String.{String}
use go_chat_backend.Common.Rows.{
  select, update, Rising, Rising-lower, order_by-Rising, select-Rising,
}
use go_chat_backend.Common.Rows.Find.{Between, Between-update}
use go_chat_backend.Database.{Outbox, Tables, Db, Env, refused, ok}
use go_chat_backend.Database.OutboxTable.{
  outbox_id, is_pending, is_in, stamp, note_failure, truncate, fetch_outbox, mark_outbox_published,
  mark_outbox_failed,
}

-- The ids of the rows that wait, in the order of the table.
abbrev pub queue_of : List Outbox → List ℕ
queue_of rows = map outbox_id (select is_pending rows)

abbrev pub queue : Tables → List ℕ
queue t = queue_of t.outbox

-- The ids of the table rise.
abbrev pub InOrder : Tables → ℕ → Type 0
InOrder t high = Between outbox_id 0 t.outbox high

Between-Rising :
    {A : Type 0} (key : A → ℕ) (low : ℕ) (xs : List A) (high : ℕ)
    → Between key low xs high
    → Rising key low xs
Between-Rising key low [] high b = tt
Between-Rising key low (x ∷ xs) high b = (
  b.0,
  Rising-lower key (suc (key x)) (key x) xs (omega arith)
      (Between-Rising key (suc (key x)) xs high b.1),
)

-- The relay reads the front of the queue, in order.
pub fetch_outbox_lem :
    (env : Env) (limit high : ℕ) (db : Db)
    → env.fails 0 ≡ false
    → InOrder db.tables high
    → fetch_outbox env limit db ≡ (ok (take limit (select is_pending db.tables.outbox)), db)
unfolding fetch_outbox
fetch_outbox_lem env limit high db g h =
    let rising =
      select-Rising outbox_id is_pending 0 db.tables.outbox
        (Between-Rising outbox_id 0 db.tables.outbox high h) in
    rw (g, order_by-Rising outbox_id 0 (select is_pending db.tables.outbox) rising)

queue-note :
    (p : Outbox → Bool) (reason : String) (rows : List Outbox)
    → queue_of (update p (note_failure reason) rows) ≡ queue_of rows
unfolding select update
queue-note p reason [] = refl
queue-note p reason (r ∷ rows) = ground (arith, queue-note p reason rows)

pub queue-stamp :
    (now : ℕ) (ids : List ℕ) (rows : List Outbox)
    → queue_of (update (λ r. is_in ids (outbox_id r)) (stamp now) rows)
      ≡ select (λ k. not (is_in ids k)) (queue_of rows)
unfolding select update
queue-stamp now ids [] = refl
queue-stamp now ids (r ∷ rows) = ground (arith, queue-stamp now ids rows)

-- A single statement takes effect.
abbrev pub is_written : Env → Bool
is_written env = not (env.fails 0) && elim env.commit [ refused ↦ false | _ ↦ true ]

pub mark_outbox_failed-outbox :
    (env : Env) (id : ℕ) (reason : String) (db : Db)
    → (mark_outbox_failed env id reason db).1.tables ≡ (
        if is_written env
        then record db.tables {
          outbox =
              update (λ r. outbox_id r == id) (note_failure (truncate reason)) db.tables.outbox;
        }
        else db.tables)
unfolding mark_outbox_failed
mark_outbox_failed-outbox env id reason db = ground arith

-- A note keeps the queue and the order of the table.
pub mark_outbox_failed_keeps :
    (env : Env) (id high : ℕ) (reason : String) (db : Db)
    → InOrder db.tables high
    → (queue (mark_outbox_failed env id reason db).1.tables ≡ queue db.tables)
      × InOrder (mark_outbox_failed env id reason db).1.tables high
mark_outbox_failed_keeps env id high reason db h = elim (Bool-cases (is_written env)) [
  | inl yes_ ↦ subst Kept (sym (mark_outbox_failed-outbox env id reason db ∙ ap pick yes_)) (
    queue-note (λ r. outbox_id r == id) (truncate reason) db.tables.outbox,
    Between-update outbox_id (λ r. outbox_id r == id) (note_failure (truncate reason)) (λ r. refl) 0
        db.tables.outbox high h,
  )
  | inr no_ ↦ subst Kept (sym (mark_outbox_failed-outbox env id reason db ∙ ap pick no_)) (refl, h)
]
  where
    pick : Bool → Tables
    pick b =
        if b
        then record db.tables {
          outbox =
              update (λ r. outbox_id r == id) (note_failure (truncate reason)) db.tables.outbox;
        }
        else db.tables

    Kept : Tables → Type 0
    Kept t = (queue t ≡ queue db.tables) × InOrder t high

pub mark_outbox_published-outbox :
    (env : Env) (id : ℕ) (ids : List ℕ) (db : Db)
    → (mark_outbox_published env (id ∷ ids) db).1.tables ≡ (
        if is_written env
        then record db.tables {
          outbox = update (λ r. is_in (id ∷ ids) (outbox_id r)) (stamp env.now) db.tables.outbox;
        }
        else db.tables)
unfolding mark_outbox_published
mark_outbox_published-outbox env id ids db = ground arith

pub mark_outbox_published-ok :
    (env : Env) (ids : List ℕ) (db : Db)
    → (mark_outbox_published env ids db).0 ≡ ok tt
    → (ids ≡ []) ⊎ (is_written env ≡ true)
unfolding mark_outbox_published
mark_outbox_published-ok env [] db h = inl refl
mark_outbox_published-ok env (id ∷ ids) db h = ground arith

-- Taking the front of a rising list of ids out of it leaves the rest.
pub drop_front :
    (f : ℕ → Bool) (n low : ℕ) (ks : List ℕ) (high : ℕ)
    → ((k : ℕ) → low ≤ k → f k ≡ false)
    → Between (λ k. k) low ks high
    → select (λ k. not (f k || is_in (take n ks) k)) ks ≡ drop n ks
unfolding select
drop_front f zero low [] high above b = refl
drop_front f (suc n) low [] high above b = refl
drop_front f zero low (k ∷ ks) high above b =
    let ih = drop_front f zero (suc k) ks high (λ j h. above j (omega arith)) b.1 in
    ground (arith, above k b.0, ih)
drop_front f (suc n) low (k ∷ ks) high above b =
    let ih =
      drop_front (λ j. f j || k == j) n (suc k) ks high (λ j h. ground (arith, above j)) b.1 in
    let regroup : ◌≡◌ {A = ℕ → Bool} (λ j. not ((f j || k == j) || is_in (take n ks) j))
        (λ j. not (f j || (k == j || is_in (take n ks) j))) =
      fun_ext (λ j. ground arith) in
    let here : not (f k || (k == k || is_in (take n ks) k)) ≡ false = ground arith in
    rw here (ap (λ p. select p ks) (sym regroup) ∙ ih)
