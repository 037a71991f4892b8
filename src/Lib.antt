-- ===== src/Lib.antt =====
-- Verification of the SAMA chat server: conversations and their participants, block lists,
-- messages and reactions, and who watches the activity of whom.
--
-- The server (app/) handles a request in three layers. An operation
-- (app/providers/operations/*/index.js) checks rights and calls services
-- (app/providers/services/*/index.js), and a service calls repositories
-- (app/providers/repositories/*/index.js), each over one MongoDB collection. The session of the
-- caller gives the user's id and the organization, which are arguments here.
--
-- Prelude       shared names, Boolean tests, lists and integers over the native numbers
-- Mongo         a collection of the driver as a parameter: its operations, and as laws what the
--               driver documents, said through the number of the documents that match a query.
--               Mongo.Memory shows with a list of documents that the laws can hold.
-- Errors        the errors of app/constants/errors.js with their statuses, and an async
--               function as an action: it passes the store on and may throw, and a throw keeps the
--               writes made before it
-- Store         the documents of app/models and the store, one collection for each
-- Repositories  app/providers/repositories: Participants is conversation_participants,
--               Conversations is conversation, BlockedUsers is blocked_user, Messages is message
--               and message_reaction, and Users has the lookups of user and its last activity. A
--               method keeps its name, in snake case.
-- Conversation  app/providers/services/conversation: create, hasAccessToConversation,
--               addParticipants, removeParticipants, updateParticipants,
--               restorePrivateConversation, the checks of an owner and of admins, and the admin
--               role. Members says when a conversation is well-formed (IsSound); Creation.Effect,
--               Stored, Adding, Removing, Reported and Rights hold the proofs.
-- BlockList     app/providers/services/block_list: every method; Batch, Effect and Lifting hold
--               the proofs. The unique index of migrations/20260204123952-blocked-users-unique.js is
--               in Repositories.BlockedUsers.
-- Messages      app/providers/services/message: hasAccessToMessage, updateReactions,
--               findMessagesByIds, validateMessagesForDelete, deleteMessagesForEveryone,
--               hideMessagesForUser
-- Activity      app/store/activity.js and app/providers/services/activity_manager/
--               activity_manager_standalone; Reachable is a step relation on its states.
--               Cluster is activity_manager_cluster, over Redis.
-- Redis         the client of app/lib/redis.js as a parameter, the commands on sets and hashes with
--               what Redis documents of them; Redis.Memory shows that the laws can hold. Redis.Scan
--               is the loops scanWithPagination and countWithMatch over what SCAN replies.
-- Session       app/providers/services/session over app/store/session.js: here the connections and
--               sessions of the process, Keys the keys and members in Redis, Node the part in
--               Redis, Lifecycle the methods that change both, with the lines of user/connect and
--               user/auth that connect a device. Distinct, Connected, Closing, Kept and Reachable
--               hold the proofs on the process, Links what it promises without lists and Contract
--               that it keeps this, Presence, Storing and Connecting the proofs on Redis, and
--               Online the lists of users who are online.
-- Retry         app/utils/promise-queue-with-jittering.js
-- Operations    app/providers/operations: ConversationEdit is conversation/edit and
--               conversation/delete up to their events, MessageDelete is message/delete, MessageEdit
--               message/edit, ConversationCreate conversation/create, ReactionsUpdate
--               message/reactions_update, MessageCreate message/create, Subscription
--               conversation/subscribe_unsubscribe, and BlockListRequests block_list
-- Tests         a small database, runs of the code on it, and the theorems applied to them
--
-- Ids are numbers. A conversation object that a method changes in place is returned as the
-- changed value. In Session an id is the text it prints as, since it is part of keys. A query of
-- findAll returns at most 100 documents, as in the base repository, unless its caller says how
-- many. Loops run over the list that they are given, so no fuel is needed; the loops over SCAN
-- have fuel, one step for each reply, and the replies of a scan that ends are enough.
-- `Array.prototype.includes` compares two native ids by identity: where the source uses it, the
-- comparison is an argument. `subscribers_count` may be undefined, and arithmetic on it NaN
-- (Store.Count). Numbers are taken as exact, below 2^53. The store of a request is its own:
-- requests that interleave are not modelled.
--
-- Not modelled: networking, the JSON and XMPP interfaces, the cluster, storage of files, push
-- notifications, encryption keys and statistics, which are input and output or call other
-- services; users and tokens, contacts, the attachments of messages and the sandbox of handlers,
-- the notifications with the messages that they store, and the other operations.
pub mod Prelude
pub mod Mongo
pub mod Errors
pub mod Store
pub mod Repositories
pub mod BlockList
pub mod Conversation
pub mod Messages
pub mod Operations
pub mod Tests
pub mod Activity
pub mod Retry
pub mod Redis
pub mod Session
