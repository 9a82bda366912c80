-- ===== src/Database.antt =====
-- The models and the state of the database (internal/database/models.go and its migrations).
-- An operation is an action on that state which may fail. Each SQL statement of an operation has a
-- number there; the environment says which statements fail and how a commit ends.
pub mod Messages
pub mod Rooms
pub mod OutboxTable
pub mod Unread
pub mod Sessions
pub mod Samples
use Prim.Native.String.{String}
use go_chat_backend.Common.{
  ℕ, ◌≡◌, refl, ◌⊎◌, inl, inr, Bool, true, false, Option, List, [], if◌then◌else◌,
}
use go_chat_backend.Event.{Payload}

pub record User : Type 0 where
  pub id : ℕ
  pub username : String
  pub password_hash : String

pub record RefreshToken : Type 0 where
  pub id : ℕ
  pub user_id : ℕ
  pub token_hash : String
  pub expires_at : ℕ
  pub created_at : ℕ
  pub revoked_at : Option ℕ

pub record Conversation : Type 0 where
  pub id : ℕ
  pub title : String
  pub created_by_id : ℕ
  pub last_seq : ℕ
  pub deleted_at : Option ℕ

pub record ConversationMember : Type 0 where
  pub id : ℕ
  pub conversation_id : ℕ
  pub user_id : ℕ
  pub created_at : ℕ

pub record Message : Type 0 where
  pub id : ℕ
  pub conversation_id : ℕ
  pub sender_id : ℕ
  pub client_msg_id : Option String
  pub seq : ℕ
  pub content : String
  pub created_at : ℕ

pub record Outbox : Type 0 where
  pub id : ℕ
  pub topic : String
  pub payload : Payload
  pub trace_context : Option String
  pub created_at : ℕ
  pub published_at : Option ℕ
  pub attempts : ℕ
  pub last_error : Option String

pub record ConsumedMessage : Type 0 where
  pub consumer : String
  pub message_id : ℕ
  pub consumed_at : ℕ

pub record UnreadCounter : Type 0 where
  pub conversation_id : ℕ
  pub user_id : ℕ
  pub unread_count : ℕ
  pub last_seq : ℕ
  pub updated_at : ℕ

pub record Tables : Type 0 where
  pub users : List User
  pub refresh_tokens : List RefreshToken
  pub conversations : List Conversation
  pub conversation_members : List ConversationMember
  pub messages : List Message
  pub outbox : List Outbox
  pub consumed_messages : List ConsumedMessage
  pub unread_counters : List UnreadCounter

-- The next value of each bigserial column. A rollback does not give values back.
pub record Serials : Type 0 where
  pub users : ℕ
  pub refresh_tokens : ℕ
  pub conversations : ℕ
  pub conversation_members : ℕ
  pub messages : ℕ
  pub outbox : ℕ

pub record Db : Type 0 where
  pub tables : Tables
  pub serials : Serials

abbrev pub empty : Db
empty = record {
  tables = record {
    users = [];
    refresh_tokens = [];
    conversations = [];
    conversation_members = [];
    messages = [];
    outbox = [];
    consumed_messages = [];
    unread_counters = [];
  };
  serials = record {
    users = 1;
    refresh_tokens = 1;
    conversations = 1;
    conversation_members = 1;
    messages = 1;
    outbox = 1;
  };
}

-- The package's errors, GORM's duplicated key, and any other failure of a statement.
pub data Error : Type 0 where
  user_exists user_not_found conversation_not_found already_member : Error
  refresh_token_not_found duplicated_key record_not_found failed : Error

pub data Result {ℓ} (A : Type ℓ) : Type ℓ where
  ok : A → Result A
  err : Error → Result A

pub Result-cases {ℓ} :
    {A : Type ℓ} (r : Result A) → ((a : A) × (r ≡ ok a)) ⊎ ((e : Error) × (r ≡ err e))
Result-cases (ok a) = inl (a, refl)
Result-cases (err e) = inr (e, refl)

-- How a commit ends: done, refused, or done with the answer lost on the way.
pub data Commit : Type 0 where
  done refused lost : Commit

pub record Env : Type 0 where
  pub now : ℕ
  pub fails : ℕ → Bool
  pub commit : Commit
  pub trace : Option String

abbrev pub Exec : Type 0 → Type 0
Exec A = Db → Result A × Db

abbrev pub pure : {A : Type 0} → A → Exec A
pure a db = (ok a, db)

abbrev pub raise : {A : Type 0} → Error → Exec A
raise e db = (err e, db)

abbrev pub continue : {A B : Type 0} → (A → Exec B) → Result A × Db → Result B × Db
continue f (ok a, db) = f a db
continue f (err e, db) = (err e, db)

infixl 5 ◌>>=◌ ◌>>◌
abbrev pub ◌>>=◌ : {A B : Type 0} → Exec A → (A → Exec B) → Exec B
◌>>=◌ m f db = continue f (m db)

abbrev pub ◌>>◌ : {B : Type 0} → Exec (Unit {0}) → Exec B → Exec B
m >> k = m >>= λ _. k

abbrev pub check : Bool → Error → Exec (Unit {0})
check true e db = (ok tt, db)
check false e db = (err e, db)

-- Statement `n` of the operation reaches the database, or fails.
abbrev pub statement : Env → ℕ → Exec (Unit {0})
statement env n db = (if env.fails n then err failed else ok tt, db)

abbrev pub gets : {A : Type 0} → (Tables → A) → Exec A
gets f db = (ok (f db.tables), db)

-- db.Transaction: an error rolls the tables back, and the serials stay used.
abbrev pub commit_of : {A : Type 0} → Commit → Tables → Result A × Db → Result A × Db
commit_of done before (ok a, db) = (ok a, db)
commit_of refused before (ok a, db) = (err failed, record db { tables = before })
commit_of lost before (ok a, db) = (err failed, db)
commit_of c before (err e, db) = (err e, record db { tables = before })

abbrev pub transaction : {A : Type 0} → Env → Exec A → Exec A
transaction env m db = commit_of env.commit db.tables (m db)
