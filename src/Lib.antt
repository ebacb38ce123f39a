-- ===== src/Lib.antt =====
-- A model of a task manager with reminders, and its correctness.
--
-- The program keeps tasks, which a creator gives to an assignee. A service per domain checks who may
-- act, changes a domain object and stores it. A reminder of a task triggers at a time of its own, or
-- an offset before the deadline of the task; when the task is completed its pending reminders are
-- cancelled, and when the deadline moves they move with it. The scheduler process polls for due
-- reminders and turns each into an event of the outbox, in the transaction that marks the reminder
-- as sent; it also polls for the recurring series whose deadline has come, and adds the task of each,
-- with its reminders. Its relay polls the outbox and sends the events to the broker. The notifier
-- process makes a notification of each event of the topic, and delivers it over Telegram where the
-- user has linked a chat; a delivery that fails is attempted again after a delay, for as many delays
-- as there are. The API process authenticates its requests by access tokens, which a user gets for a
-- password, or for a refresh token that is then used up.
--
-- The files, and the code that each is about (paths from the root of the repository):
--   Base, Time, Errors       shared lists, tests, integers with the wrap-around of int64, texts with
--                            strings.TrimSpace, times with time.Duration, and the error sentinels
--   Time/Calendar, Zone      the dates of the Gregorian calendar, and what package time of Go makes of
--                            them in a zone: In, Date, Clock, time.Date and AddDate
--   World/State              the tables, the topic, the messages and the environment
--   World                    actions that pass the state on, and WithinTransaction of
--                            internal/platform/database/transaction.go
--   Task/Status, Domain      internal/task/domain: Status, Task and its methods, by their Go names
--   Task/Invariant, Lifecycle  the well-formed tasks, and the calls that lead from one to another
--   Task/Repository          internal/task/adapter/out/postgres: Create, FindByID, Update
--   Task/Query               List of the same repository, with applyFilter and orderBy of query.go
--   Task/Service             internal/task/application/service/task_service.go but for ListTasks
--   Task/Listing             ListTasks of the same file; Matches and Orders say what is asked for
--   Reminder/Domain          internal/reminder/domain; Triggers, Invariant and Lifecycle are about it
--   Reminder/Repository      internal/reminder/adapter/out/postgres
--   Reminder/Service         internal/reminder/application/service/reminder_service.go
--   Reminder/Scheduler       internal/reminder/adapter/in/scheduler: Process, and ProcessOnce
--   Permission               internal/permission: CanAssign and ListAssignableUserIDs
--   User                     internal/user: the table, GetMe and ListAssignableUsers
--   Auth/Domain, Repository  internal/auth/domain, internal/auth/adapter/out/postgres
--   Auth/Email, Commands     the validation in internal/auth/application/service/auth_service.go, with
--                            what mail.ParseAddress returns unchanged
--   Auth/Service             Register, Login, Refresh and Logout of the same file, with
--                            GenerateAccessToken of internal/auth/adapter/out/jwt
--   Auth/Access              ValidateAccessToken of the same adapter, and the middleware of
--                            internal/auth/adapter/in/http, over what the JWT library answers
--   Recurrence/Domain        internal/recurrence/domain; its children are about NextDeadline
--   Recurrence/Repository    internal/recurrence/adapter/out/postgres
--   Recurrence/Processor     internal/recurrence/application/service/processor.go, and ProcessOnce of
--                            internal/recurrence/adapter/in/scheduler/runner.go
--   Outbox/Event, Repository internal/outbox/domain, internal/outbox/adapter/out/postgres
--   Outbox/Envelope, Relay   internal/outbox/adapter/out/kafka/publisher.go and processOnce of
--                            internal/outbox/application/service/relay.go
--   Notification/Domain, Delivery, Telegram  internal/notification/domain
--   Notification/Repository  internal/notification/adapter/out/postgres, a module for each table
--   Notification/Service     internal/notification/application/service/notification_service.go
--   Notification/DeliveryRunner  delivery_runner.go of the same folder: processDelivery, ProcessDue
--   Samples, and each Tests  example data, and runs of the code on it
--
-- A method of Go that changes its receiver is a function that returns the new value or an error. A
-- service method is an action: it takes a world and returns a result and the world that it leaves,
-- also on an error. A table is the list of its rows, and a row is the record of its domain type. The
-- services are composed over the repositories as internal/bootstrap wires them. UUIDs are numbers,
-- with the nil UUID as 0; a time is its nanoseconds after the zero time; an error is its sentinel,
-- without the text that is wrapped around it.
--
-- What the program does not implement is the environment of a world: which statements fail, what a
-- rollback leaves, what the broker and Telegram answer, which rows other transactions hold, the
-- clock, the fresh ids, the random tokens and their hash, bcrypt, the signature of a token, the time
-- zones, which texts are IP addresses, the collation and ILIKE. Each question has a number of its
-- own, so that no two answers need agree. The laws that a theorem needs of it are its hypotheses
-- (IsTransactional, IsHealthy, IsReady, IsConsistent, Verifies).
--
-- No fuel is used: every loop of the modelled code runs over a list that it has been given. The
-- loops of the tickers, which never end, are modelled by one poll.
--
-- Not modelled: the interleaving of concurrent transactions, beyond the rows that a poll skips as
-- locked; foreign keys; the rounding of a time to microseconds by the database; a process in another
-- time zone than UTC; the texts of errors; logs and metrics; the branch of processBatch with several
-- workers, which is not reached where the batch runs in a transaction, as ClaimDue has it. Of the
-- packages, internal/bootstrap, the rest of internal/platform, and the HTTP, Kafka and Telegram
-- adapters but for the authentication of requests are not modelled.
pub mod Base
pub mod Time
pub mod Errors
pub mod World
pub mod User
pub mod Auth
pub mod Permission
pub mod Task
pub mod Reminder
pub mod Recurrence
pub mod Outbox
pub mod Notification
pub mod Samples
