-- ===== src/Lib.antt =====
-- The mail client behind Nexus Mail: the database, the submission client, the sync engine, the
-- service of the window and the transformations of messages.
--
-- The program keeps mail in SQLite (internal/store), so that the window reads and changes it
-- without a network. A change that the user makes is written to the tables and, in the same
-- transaction, to a queue of operations. The engine (internal/sync) watches each account over IMAP
-- (internal/imapx): it brings folders in step with the server, sends the queue, submits messages over
-- SMTP (internal/smtpx), and purges what the retention policy lets go. internal/model has the types
-- that all of them share. The window calls the service (internal/app), which holds the last action
-- open for an undo, drafts replies, queues sends and tells of new mail; internal/mailmime writes
-- messages, internal/mailhtml shows them, and internal/logging keeps their content out of the log.
--
-- Files:
--   Base         names, tests, lists, texts and the sort that all files share. Texts are lists of code
--                points; case folding is a parameter (`Unicode`), as unicode tables are no part of
--                the repository.
--   Model        internal/model/model.go: `Folder`, `Message`, `Operation` and the others, with their
--                methods (`is_inbox` is IsInbox, and so on); Model/Errors has Go's errors as the
--                program inspects them, and Model/Roles has Role and SortFolders.
--   Store        internal/store: a `Db` is a record of tables, and each method of a file of that
--                package is a function on it with the method's name (`enqueue_operation` is
--                EnqueueOperation). Operations, Folders, Messages, Delta, Purge, Actions, Undo
--                and Identities model operations.go, folders.go, messages.go with attachments.go,
--                messages_delta.go, messages_purge.go, actions.go, undo.go and identities.go. SQL is written out
--                as what it does to rows: UNIQUE with ON CONFLICT is a test and an update or an
--                insertion, a foreign key with ON DELETE CASCADE is a filter of the child table.
--                Arrivals, Attachments, Bodies and Outbox model the files of these names. A
--                directory is a list of files with what the operating system refuses (`Files`).
--   Smtp         internal/smtpx: the checks and the transaction of client.go; the connection of
--                go-smtp is the parameter `Wire`.
--   Sync         internal/sync: code in a `World` of the outside, the store and a trace of events.
--                `Outside` stands for the servers, the outbox, the context and the clock; `Store` is
--                the interface of engine.go, which Sync/Sqlite fills with the functions of Store.
--                Queue, Send, Delta, Initial, Watch, Errors and Backoff model the files of these names,
--                the last with the delays of queue.go and watch.go.
--                Body models body.go over the calls that read one message (`Mailbox`).
--   Imap         internal/imapx: envelope.go, from what the methods of go-imap give.
--   Mime         internal/mailmime: reply.go, with the subject, the references and the quotation.
--   Html         internal/mailhtml: highlight.go on the parsed tree.
--   Logging      internal/logging: redact.go over the values of slog; what its two regular expressions
--                replace is the parameter `Patterns`.
--   App          internal/app: a `Service` has the database, the two slots of undo and redo and the live
--                setting; Undo, Actions, Newmail, Reply and Send model undo.go, actions.go with
--                emptytrash.go, newmail.go, reply.go and send.go with the checks of mailmime/build.go.
--                A call is one step that reads the clock once (`Moment`).
--   Examples     a mailbox, a server, and runs of the models.
--
-- Bounds. Integers of the source are numbers: row ids and UIDs do not overflow in the life of an
-- account, and the doubling of a delay stops at its cap before it leaves 64 bits. Times are
-- nanoseconds (seconds in a message and in the last pass of a folder). `delete_batches` runs on the length of the list as fuel, which is
-- enough since each round takes at least one UID. `watch` and `watch_loop` bound the connections and the
-- passes of loops that the source ends only with the context; their theorems hold for every bound.
--
-- The loops over the prefixes of a subject run on its length in bytes and one more as fuel, since each
-- round cuts at least one byte, and the search in a text on its runes and one more.
--
-- Go walks a map in an unspecified order; where the code does so the order is a parameter.
--
-- Not modelled: failures of SQL statements, the JSON encoding of columns, the search index and its
-- triggers, accounts and the order of threads, the IMAP client itself (calls of go-imap), dialing and
-- authentication, the HTML sanitiser (bluemonday), the writing of message parts (go-message), the
-- locks of the service, its HTTP handler and settings, and the window.
pub mod App
pub mod Base
pub mod Examples
pub mod Html
pub mod Imap
pub mod Logging
pub mod Mime
pub mod Model
pub mod Smtp
pub mod Store
pub mod Sync
