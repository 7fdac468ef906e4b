-- ===== src/Schema.antt =====
-- The tables of the database: the `schema.ts` file of each folder under src/. Ids are uuids, which
-- the code only compares, so they are numbers here; so are times, in milliseconds. A table is the
-- list of its rows. Values that Postgres generates (`gen_random_uuid()`, `now()`, the identity
-- column) are arguments of the operations that insert.
use meridian_backend.Prelude.{ℕ, String, Bool, Option, List, ◌&&◌, ◌==◌}

-- `bytea` columns, and the texts that the code walks by character.
abbrev pub Bytes : Type 0
Bytes = List ℕ

-- src/memberships/schema.ts
pub data Role : Type 0 where
  author editor viewer : Role

pub data Mode : Type 0 where
  invite link : Mode

pub record Membership : Type 0 where
  pub id : ℕ
  pub document_id : ℕ
  pub user_id : ℕ
  pub role : Role
  pub membership_mode : Mode
  pub created_at : ℕ
  pub updated_at : ℕ

-- src/users/schema.ts
pub record User : Type 0 where
  pub id : ℕ
  pub email : String
  pub first_name : String
  pub last_name : String
  pub password_hash : String
  pub verified_at : Option ℕ
  pub verification_token_hash : Option String
  pub verification_token_expires_at : Option ℕ
  pub created_at : ℕ
  pub updated_at : ℕ

-- src/documents/schema.ts
pub data Status : Type 0 where
  draft active inactive deleted : Status

pub record Document : Type 0 where
  pub id : ℕ
  pub title : String
  pub status : Status
  pub created_by : ℕ
  pub latest_snapshot_id : Option ℕ
  pub created_at : ℕ
  pub updated_at : ℕ

pub record Snapshot : Type 0 where
  pub id : ℕ
  pub document_id : ℕ
  pub content_blob : Bytes
  pub version_vector : List (ℕ × ℕ)
  pub operation_sequence : ℕ
  pub created_at : ℕ

-- src/share_links/schema.ts
pub record ShareLink : Type 0 where
  pub id : ℕ
  pub document_id : ℕ
  pub created_by : ℕ
  pub role : Role
  pub token : ℕ
  pub is_single_use : Bool
  pub claimed_by : Option ℕ
  pub claimed_at : Option ℕ
  pub expires_at : Option ℕ
  pub revoked_at : Option ℕ
  pub created_at : ℕ

-- src/operations/schema.ts
pub data OperationType : Type 0 where
  insert delete format yjs_update : OperationType

pub data OperationSource : Type 0 where
  human ai : OperationSource

-- The identity `client:clock` of an item of a Yjs document.
pub record StructId : Type 0 where
  pub client : ℕ
  pub clock : ℕ

-- The JSON payloads that `classifyUpdate` writes, by their keys.
pub data Payload : Type 0 where
  insert_payload : (insert_id : StructId) → (content : Bytes) → Payload
  format_payload : (start_id end_id : StructId) → (key : String) → (value : String) → Payload
  delete_payload : (delete_id : StructId) → Payload
  count_payload : (struct_count : ℕ) → Payload

pub record Operation : Type 0 where
  pub id : ℕ
  pub document_id : ℕ
  pub user_id : ℕ
  pub type : OperationType
  pub yjs_update : Option Bytes
  pub after_id : Option ℕ
  pub operation_sequence : ℕ
  pub clock_value : Option ℕ
  pub source : OperationSource
  pub payload : Option Payload
  pub created_at : ℕ

-- src/outbox/schema.ts
pub record OutboxRow : Type 0 where
  pub id : ℕ
  pub document_id : ℕ
  pub operation_id : ℕ
  pub payload : Bytes
  pub attempts : ℕ
  pub last_attempted_at : Option ℕ
  pub created_at : ℕ

-- src/password_reset_tokens/schema.ts
pub record ResetToken : Type 0 where
  pub id : ℕ
  pub user_id : ℕ
  pub token_hash : String
  pub expires_at : ℕ
  pub consumed_at : Option ℕ
  pub revoked_at : Option ℕ
  pub created_at : ℕ

pub record Database : Type 0 where
  pub users : List User
  pub documents : List Document
  pub memberships : List Membership
  pub share_links : List ShareLink
  pub operations : List Operation
  pub outbox : List OutboxRow
  pub snapshots : List Snapshot
  pub reset_tokens : List ResetToken

-- The columns of `unique().on(documentId, userId)` agree.
abbrev pub same_member : Membership → Membership → Bool
same_member m n = m.document_id == n.document_id && m.user_id == n.user_id
