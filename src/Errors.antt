-- ===== src/Errors.antt =====
-- app/constants/errors.js: the error statuses, and what else a call throws; and asynchronous
-- functions as state-passing actions. A throw keeps the writes made before it.
use sama_server.Prelude.{ℕ, ◌≡◌, refl, sym, ap, Bool, true, false, Option, none, some}

pub data Error : Type 0 where
  -- ERROR_STATUES
  unauthorized forbidden bad_request invalid_data_format incorrect_type org_not_found : Error
  incorrect_token token_expired route_not_found user_id_missed user_not_found : Error
  user_login_or_pass user_selected user_already_exists too_many_users_in_private : Error
  too_many_users_in_group incorrect_user incorrect_password incorrect_login : Error
  incorrect_current_password incorrect_login_or_password organization_blocked : Error
  incorrect_otp_token device_id_missed contact_not_found contact_id_missed : Error
  fullname_is_missed email_or_phone_is_missed conversation_not_found : Error
  conversation_exists conversation_name_missed conversation_type_missed : Error
  participants_not_provided participant_not_found participants_limit : Error
  opponent_not_found handler_not_found file_ids_missed file_limit_exceeded : Error
  file_ids_exceeded incorrect_file_name incorrect_file_size incorrect_content_type : Error
  message_id_not_found message_id_missed incorrect_message_id : Error
  incorrect_reply_message_id message_type_missed message_body_and_attachments_empty : Error
  user_blocked incorrect_type_of_body invalid_attachment_fields ai_agent_error : Error
  status_id_missed status_type_missed status_t_missed message_blocked_by_handler : Error
  incorrect_platform_type incorrect_device_id incorrect_recipients_ids : Error
  recipients_not_found notification_message_missed notification_not_found : Error
  incorrect_keys incorrect_identity_key incorrect_signed_key : Error
  incorrect_one_time_pre_keys incorrect_user_id incorrect_users_array : Error
  log_timestamp_missed cid_required cids_required internal_server : Error
  missing_auth_credentials missing_otp_sender_service : Error
  -- an entry that is a text and has no status
  cors_restrictions : Error
  -- `throw new Error("Can't block self user")`, which has no status
  block_self : Error
  -- insertMany of an empty batch, which the driver refuses
  empty_batch : Error
  -- E11000 of the driver, from a document that a unique index refuses
  duplicate_key : Error
  -- a TypeError of the runtime, from a property of null or undefined
  type_error : Error

-- the `status` of the answer; none where the thrown error has no `cause` with one
abbrev pub status : Error → Option ℕ
status unauthorized = some 401
status incorrect_current_password = some 401
status incorrect_login_or_password = some 401
status missing_auth_credentials = some 401
status missing_otp_sender_service = some 401
status forbidden = some 403
status organization_blocked = some 403
status incorrect_otp_token = some 403
status bad_request = some 400
status invalid_data_format = some 400
status org_not_found = some 404
status route_not_found = some 404
status conversation_not_found = some 404
status conversation_exists = some 404
status participant_not_found = some 404
status ai_agent_error = some 500
status internal_server = some 500
status cors_restrictions = none
status block_self = none
status empty_batch = none
status duplicate_key = none
status type_error = none
status _ = some 422

pub data Result {ℓ} (A : Type ℓ) : Type ℓ where
  ok : A → Result A
  err : Error → Result A

abbrev pub Action : Type 0 → Type 0 → Type 0
Action S A = S → Result A × S

abbrev pub bind : {S A B : Type 0} → Result A × S → (A → Action S B) → Result B × S
bind (ok a, s) f = f a s
bind (err e, s) f = (err e, s)

infixl 5 ◌>>=◌ ◌>>◌
abbrev pub ◌>>=◌ : {S A B : Type 0} → Action S A → (A → Action S B) → Action S B
◌>>=◌ m f s = bind (m s) f

abbrev pub ◌>>◌ : {S B : Type 0} → Action S (Unit {0}) → Action S B → Action S B
◌>>◌ m k = m >>= λ _. k

abbrev pub return : {S A : Type 0} → A → Action S A
return a s = (ok a, s)

abbrev pub throw : {S A : Type 0} → Error → Action S A
throw e s = (err e, s)

-- a value read from the store; `if (!test) throw e`
abbrev pub read : {S A : Type 0} → (S → A) → Action S A
read f s = (ok (f s), s)

abbrev pub write : {S : Type 0} → (S → S) → Action S (Unit {0})
write f s = (ok tt, f s)

abbrev pub require : {S : Type 0} → Bool → Error → Action S (Unit {0})
require true e s = (ok tt, s)
require false e s = (err e, s)

abbrev pub require_some : {S A : Type 0} → Option A → Error → Action S A
require_some none e s = (err e, s)
require_some (some a) e s = (ok a, s)

-- A run that succeeds went through each of its steps.
pub bind_ok :
    {S A B : Type 0} (r : Result A × S) (f : A → Action S B) (b : B) (s' : S)
    → bind r f ≡ (ok b, s')
    → (a : A) × (s1 : S) × (r ≡ (ok a, s1)) × (f a s1 ≡ (ok b, s'))
bind_ok (ok a, s1) f b s' h = (a, s1, refl, h)
bind_ok (err e, s1) f b s' h = absurd (cc)

pub returned : {S A : Type 0} (a b : A) (s s' : S) → return a s ≡ (ok b, s') → (a ≡ b) × (s ≡ s')
returned a b s s' h =
    let oks : ok a ≡ ok b = ap (λ (r : Result _ × _). r.0) h in
    (cc, ap (λ (r : Result _ × _). r.1) h)

pub required :
    {S : Type 0} (b : Bool) (e : Error) (s s' : S) (u : Unit {0})
    → require b e s ≡ (ok u, s')
    → s' ≡ s
required true e s s' u h = sym (returned tt u s s' h).1
required false e s s' u h = absurd (cc)

pub required_some :
    {S A : Type 0} (o : Option A) (e : Error) (s s' : S) (a : A)
    → require_some o e s ≡ (ok a, s')
    → (s' ≡ s) × (o ≡ some a)
required_some none e s s' a h = absurd (cc)
required_some (some b) e s s' a h =
    let (object, here) = returned b a s s' h in (sym here, ap some object)
