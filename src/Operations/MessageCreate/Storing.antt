-- ===== src/Operations/MessageCreate/Storing.antt =====
-- app/providers/operations/message/create/index.js after the checks, with create and
-- processHandlerResult of app/providers/services/message/index.js. The sandbox that runs a handler is a
-- library: what its run leaves is an argument. Attachments of a message are not modelled.
use Prim.Native.String.{String}
use text.Mathlib.Text.{◌==◌ as str_eq}
use sama_server.Prelude.{
  ℕ, ◌==◌, Bool, true, false, not, ◌&&◌, List, [], ◌∷◌, Option, none, some, if◌then◌else◌, any,
  is_empty,
}
use sama_server.Errors.{
  Action, ◌>>=◌, ◌>>◌, return, read, write, require, require_some, type_error, ok,
  invalid_attachment_fields, incorrect_type_of_body, message_blocked_by_handler,
}
use sama_server.Store.{User, Conversation, Message, Driver, Store, Config}
use sama_server.Repositories.Conversations.{is_private, update_last_activity}
use sama_server.Repositories.Users.{find_user}
use sama_server.Conversation.{restore_private_conversation}
use sama_server.Operations.MessageCreate.{check_message}

pub record MessageParams : Type 0 where
  pub body : Option String
  pub replied_message_id : Option ℕ

-- the body that a handler resolves with: none or empty, a text that is not, and any other value that
-- counts as true
pub data HandlerBody : Type 0 where
  no_body other_body : HandlerBody
  text_body : String → HandlerBody

-- What the run of a handler leaves. An attachment is the list of its keys.
pub record Compiled : Type 0 where
  pub rejected : Bool
  pub accept : Bool
  pub body : HandlerBody
  pub attachments : List (List String)
  pub is_replace_body : Bool

-- the result of `processHandlerResult`
pub data Handled : Type 0 where
  unchanged : Handled
  replaced : Option String → Handled
  answered : User → Option String → Handled

-- allowedBotAttachmentFields
abbrev pub allowed_bot_attachment_fields : List String
allowed_bot_attachment_fields =
    "file_url" ∷ "file_blur_hash" ∷ "file_content_type" ∷ "file_size" ∷ "file_width" ∷ "file_height"
    ∷ []

abbrev pub is_allowed_key : String → Bool
is_allowed_key key = any (λ f. str_eq f key) allowed_bot_attachment_fields

abbrev pub validate_attachment_in_message : List String → Bool
validate_attachment_in_message keys = not (any (λ k. not (is_allowed_key k)) keys)

abbrev pub body_text : HandlerBody → Option String
body_text (text_body t) = some t
body_text _ = none

abbrev pub is_other : HandlerBody → Bool
is_other other_body = true
is_other _ = false

abbrev pub has_body : HandlerBody → Bool
has_body no_body = false
has_body _ = true

abbrev pub message_of : User → Conversation → MessageParams → ℕ → ℕ → ℕ → Message
message_of user conv params new_id t now = record {
  id = new_id;
  organization_id = user.organization_id;
  cid = conv.id;
  from = user.id;
  t = t;
  body = params.body;
  replied_message_id = params.replied_message_id;
  deleted_for = [];
  created_at = now;
  updated_at = now;
}

abbrev pub answer_of : Option User → Option String → Handled
answer_of none body = unchanged
answer_of (some bot) body = answered bot body

module _ (db : Driver) where
  open db use {users, messages, conversations}

  -- `create` of the message service
  unfoldable pub insert_message :
      User → Conversation → MessageParams → ℕ → ℕ → Action (Store db) Message
  insert_message user conv params t now s =
      let m = message_of user conv params (messages.new_id s.messages) t now in
      (ok m, record s { messages = messages.insert_one m s.messages })

  unfoldable pub find_by_login : ℕ → String → Store db → Option User
  find_by_login org login s =
      users.find_one (λ u. u.organization_id == org && str_eq u.login login) s.users

  unfoldable pub process_handler_result : String → ℕ → Compiled → Action (Store db) Handled
  process_handler_result bot_login org c = if c.accept then return unchanged else do
    require (not (any (λ a. not (validate_attachment_in_message a)) c.attachments))
        invalid_attachment_fields
    require (not (is_other c.body)) incorrect_type_of_body
    bot ← read (find_by_login org bot_login)
    return (
        if not (has_body c.body) && is_empty c.attachments
        then unchanged
        else if c.is_replace_body
        then replaced (body_text c.body)
        else answer_of bot (body_text c.body))

  unfoldable pub run_handler : String → ℕ → Option Compiled → Action (Store db) Handled
  run_handler bot_login org none = return unchanged
  run_handler bot_login org (some c) = do
    require (not c.rejected) message_blocked_by_handler
    process_handler_result bot_login org c

  abbrev pub handled_params : MessageParams → Handled → MessageParams
  handled_params params (replaced body) = record params { body = body }
  handled_params params _ = params

  unfoldable pub restore_participants : Config → Conversation → Action (Store db) (Unit {0})
  restore_participants cfg conv =
      if is_private conv.kind
      then (do _ ← restore_private_conversation db cfg conv; return tt)
      else return tt

  unfoldable pub insert_answer :
      Conversation → MessageParams → ℕ → ℕ → Handled → Action (Store db) (Unit {0})
  insert_answer conv params t now (answered bot body) = do
    _ ← insert_message bot conv (record params { body = body }) t now
    return tt
  insert_answer conv params t now _ = return tt

  unfoldable pub store_message :
      Config → User → Conversation → MessageParams → ℕ → ℕ → Handled → Action (Store db) Message
  store_message cfg user conv params t now handled = do
    message ← insert_message user conv (handled_params params handled) t now
    restore_participants cfg conv
    insert_answer conv params t now handled
    write (λ s. record s {
      conversations = update_last_activity conversations conv.id message.created_at s.conversations;
    })
    return message

  -- `t` and `now` are the time of the write, in seconds and as a date.
  unfoldable pub create_message :
      Config
      → String
      → Option Compiled
      → ℕ
      → ℕ
      → ℕ
      → MessageParams
      → ℕ
      → ℕ
      → Action (Store db) Message
  create_message cfg bot_login compiled org uid cid params t now = do
    found ← read (λ s. find_user users uid s.users)
    conv ← check_message db cfg org cid uid params.replied_message_id
    user ← require_some found type_error
    handled ← run_handler bot_login user.organization_id compiled
    store_message cfg user conv params t now handled
