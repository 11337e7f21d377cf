-- ===== src/Rag/Conversations.antt =====
-- services/rag-service/src/db.py: the store of conversations. A message stands behind the earlier ones,
-- which is the order of `created_at`. The row-level security of the database, and
-- the times that it sets by itself, are not modelled.
pub mod History
pub mod Rows
pub mod Covered
pub mod Sound
pub mod Absorb
pub mod Window
mod Examples
use docintel.Common.{
  ℕ, zero, suc, ◌+◌, ◌-◌, Bool, true, false, not, ◌&&◌, ◌||◌, Option, none, some, List, [], ◌∷◌,
  ◌++◌, Text, codes, text_eq, is_empty, keep, any, take, drop, length, ltb, ◌>>=◌, if◌then◌else◌,
}

pub record Conversation : Type 0 where
  pub id : Text
  pub tenant_id : Text
  pub user_id : Option Text
  pub title : Text
  pub session_summary : Option Text
  pub summary_upto_count : ℕ
  pub updated_at : ℕ

pub record Message : Type 0 where
  pub conversation_id : Text
  pub role : Text
  pub content : Text

pub record Db : Type 0 where
  pub conversations : List Conversation
  pub messages : List Message

-- `query.filter(...).first()`.
unfoldable pub first : (Conversation → Bool) → List Conversation → Option Conversation
first p [] = none
first p (c ∷ cs) = let rest = first p cs in if p c then some c else rest

-- Assignments to the fields of that conversation.
unfoldable pub change :
    (Conversation → Bool) → (Conversation → Conversation) → List Conversation → List Conversation
change p f [] = []
change p f (c ∷ cs) = let rest = change p f cs in if p c then f c ∷ cs else c ∷ rest

-- `Conversation.id == conversation_id, Conversation.tenant_id == tenant_id`.
unfoldable pub is_of : Text → Text → Conversation → Bool
is_of conversation_id tenant_id c = text_eq c.id conversation_id && text_eq c.tenant_id tenant_id

-- The filter of `add_message`: an empty tenant is not looked at.
unfoldable pub is_addressed : Text → Text → Conversation → Bool
is_addressed conversation_id tenant_id c =
    text_eq c.id conversation_id && (is_empty tenant_id || text_eq c.tenant_id tenant_id)

unfoldable pub is_turn : Text → Message → Bool
is_turn conversation_id m =
    text_eq m.conversation_id conversation_id
    && (text_eq m.role (codes "user") || text_eq m.role (codes "assistant"))

-- The user's and the assistant's messages of a conversation, oldest first.
unfoldable pub turns : Text → Db → List Message
turns conversation_id db = keep (is_turn conversation_id) db.messages

-- `id` is the new identifier.
unfoldable pub create_conversation : Text → Text → Option Text → Text → ℕ → Db → Db
create_conversation id tenant_id user_id title now db = record db {
  conversations =
      db.conversations
      ++ (record {
        id = id;
        tenant_id = tenant_id;
        user_id = user_id;
        title = title;
        session_summary = none;
        summary_upto_count = 0;
        updated_at = now;
      })
        ∷ [];
}

unfoldable pub get_conversation : Text → Text → Db → Option (Conversation × List Message)
get_conversation conversation_id tenant_id db =
    first (is_of conversation_id tenant_id) db.conversations >>= λ c.
    some (c, keep (λ m. text_eq m.conversation_id c.id) db.messages)

-- `delete_conversation`; the messages go with it.
unfoldable pub delete_conversation : Text → Text → Db → Bool × Db
delete_conversation conversation_id tenant_id db =
    elim (first (is_of conversation_id tenant_id) db.conversations) [
      | none ↦ (false, db)
      | some c ↦ (
        true,
        record {
          conversations = keep (λ d. not (text_eq d.id c.id)) db.conversations;
          messages = keep (λ m. not (text_eq m.conversation_id c.id)) db.messages;
        },
      )
    ]

-- `conv.updated_at = ...`, and the title of a conversation that has none yet.
unfoldable pub touch : Text → Text → ℕ → Conversation → Conversation
touch role content now c =
    let titled = text_eq role (codes "user") && text_eq c.title (codes "New Conversation") in
    record c {
      title =
          if titled
          then take 100 content ++ (if ltb 100 (length content) then codes "..." else [])
          else c.title;
      updated_at = now;
    }

-- `add_message`; `none` is the error for a conversation that is not there.
unfoldable pub add_message : Text → Text → Text → Text → ℕ → Db → Option Db
add_message conversation_id role content tenant_id now db =
    if any (λ c. text_eq c.id conversation_id) db.conversations
    then some (record {
      conversations =
          change (is_addressed conversation_id tenant_id) (touch role content now) db.conversations;
      messages =
          db.messages
          ++ (record { conversation_id = conversation_id; role = role; content = content }) ∷ [];
    })
    else none

pub record SummaryState : Type 0 where
  pub session_summary : Option Text
  pub summary_upto_count : ℕ
  pub total_message_count : ℕ

unfoldable pub state_of : List Message → Option Conversation → SummaryState
state_of ms none = record {
  session_summary = none;
  summary_upto_count = 0;
  total_message_count = 0;
}
state_of ms (some c) = record {
  session_summary = c.session_summary;
  summary_upto_count = c.summary_upto_count;
  total_message_count = length ms;
}

unfoldable pub get_conversation_summary_state : Text → Text → Db → SummaryState
get_conversation_summary_state conversation_id tenant_id db =
    state_of (turns conversation_id db) (first (is_of conversation_id tenant_id) db.conversations)

-- What is read of a conversation, if it is there.
unfoldable pub if_there : List Message → Option Conversation → List Message
if_there ms none = []
if_there ms (some c) = ms

unfoldable pub get_messages_slice : Text → Text → ℕ → ℕ → Db → List Message
get_messages_slice conversation_id tenant_id offset limit db =
    if_there (take limit (drop offset (turns conversation_id db)))
      (first (is_of conversation_id tenant_id) db.conversations)

unfoldable pub get_recent_messages : Text → Text → ℕ → Db → List Message
get_recent_messages conversation_id tenant_id limit db =
    if_there (drop (length (turns conversation_id db) - limit) (turns conversation_id db))
      (first (is_of conversation_id tenant_id) db.conversations)

unfoldable pub set_summary : Text → ℕ → Conversation → Conversation
set_summary summary upto_count c = record c {
  session_summary = some summary;
  summary_upto_count = upto_count;
}

unfoldable pub update_conversation_summary : Text → Text → Text → ℕ → Db → Db
update_conversation_summary conversation_id tenant_id summary upto_count db = record db {
  conversations =
      change (is_of conversation_id tenant_id) (set_summary summary upto_count) db.conversations;
}

unfoldable pub update_conversation_title : Text → Text → Text → Db → Option Db
update_conversation_title conversation_id tenant_id title db =
    first (is_of conversation_id tenant_id) db.conversations >>= λ found. some (record db {
      conversations =
          change (is_of conversation_id tenant_id) (λ c. record c { title = title })
            db.conversations;
    })
