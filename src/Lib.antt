-- ===== src/Lib.antt =====
-- SleepJiraBot: a Telegram bot that tells its users what changes in Jira and in their calendars.
--
-- The parts and how they interact. The poller (internal/poller/poller.go) asks Jira for the issues of
-- each subscription, collects their changes in a map of pending batches, and sends a batch when its
-- window is over. The webhook handler (internal/webhook) accepts the posts of Jira, queues their
-- events, and tells the subscribed chats. Both ask the guard of internal/notifydedup before they send,
-- and escape what they send with internal/format. The calendar poller (internal/calendarpoller) expands
-- the events of a feed (internal/calendar), keeps a row for each instance
-- (internal/storage/calendar_event_repo.go), and sends news, changes and reminders. The identity
-- provider (internal/identity/provider.go) leases access tokens and refreshes them;
-- internal/crypto/crypto.go encrypts what is stored. The webhook manager (internal/jira/webhooks.go)
-- registers Jira's webhooks for the subscriptions, compares them with the rows of
-- internal/storage/webhook_repo.go, and refreshes them. The scheduler (internal/scheduler/scheduler.go)
-- sends reports when the cron fires, among them the daily text of internal/daily/daily.go. The state
-- manager (internal/telegram/state.go) keeps each conversation's step; handler_kanban.go and
-- handler_sprint.go beside it compute the reports on a board and a sprint. internal/middleware/ratelimit.go
-- limits the requests of an address. The preferences' server (internal/preferences) reads and sets what
-- internal/storage/user_repo.go keeps of a user's choices.
--
-- The files. `NotifyDedup` (`formatKey`, `Guard`), `Format`, `Middleware` (`RateLimiter`), `Telegram`
-- (`State` is the in-memory store, `Statuses` the kinds of statuses, `Kanban` computeKanbanMetrics with
-- what it calls, `Sprint` the counters of formatSprintReport, `Sprint.Changes` computeChangelogMetrics,
-- `Sprint.Boards` matchBoard and computeVelocity, `Messages` splitMessage), `Jira` (the types of models.go
-- and the document trees; `Paging` is GetBoards and ListWebhooks, `Webhooks` webhooks.go with a child for
-- the filters, the requests, the manager, the resync and the refresh), `Crypto`, `Daily`, `Scheduler`,
-- `Locale`, `Storage` (`Settings` is the setters of a user's preferences)
-- and `CalendarEvents` (the rows), `Preferences` (LocalProvider and Server), `Notifier` (the request), `Poller` (`Changes` is recentChanges,
-- `Pending` addPending and flushPending, `Send` sendPendingNotification, `Mentions`
-- findRecentMentionComments, `Jql` buildJQL, `Cycle` pollUser), `Calendar` (expander.go; `Calendar.Url`
-- is url.go), `CalendarPoller` (the loop over the instances; `Tick` is the whole of pollUser), `Webhook`
-- (`Ingress` is ServeHTTP and the queue, `Mentions` findMentionSubscriptions, `Delivery` processEvent),
-- `Identity` (Lease). The children of a module hold its theorems, `Base` what the modules share, and
-- `Tests` runs on concrete inputs.
--
-- How the code is modelled. A struct is a record, a map a list of keys and values, in which an insertion
-- replaces. A mutex makes an operation one step, so state is passed from one operation to the next, and
-- sequences of operations stand for the interleavings. A clock reading is an argument, a natural number
-- in the unit that the module's comment names; so are the answers of Mongo, Jira, the OAuth server, the
-- resolver and the rrule package, and whether a call fails. A timestamp text is the instant that is read
-- from it. Texts are lists of code points (bytes in `Poller.Jql`). An identifier of a chat is an integer;
-- where the width matters it is assumed to be an int64. Durations are whole milliseconds
-- where Go has hours in floats; story points and logged hours are floats that stand as the operations that
-- they come from (`Base.Floats`), and other float results are parameters. The loops are recursions on the list that they range over or on the
-- code's own bound (five pages of comments, 20 pages of boards). Only the loop of ListWebhooks has none:
-- it runs on a number of rounds, and one more round than the list has pages is enough.
--
-- Not modelled: the wiring of the processes, HTTP transport, NATS, Redis, Mongo, logging, configuration,
-- the parsing of feeds, the commands, menus and wizards of the bot, the texts of the board and sprint reports,
-- the OAuth flow, the clients of the services, the cron library and the reload of the schedules. The iteration
-- of a Go map, whose order is random, is modelled in the order of the list. The goroutines that work on
-- the webhook's queue are modelled by the order in which they take events.
mod Base
pub mod Crypto
pub mod NotifyDedup
pub mod Format
pub mod Middleware
pub mod Telegram
pub mod Jira
pub mod Locale
pub mod Storage
pub mod Calendar
pub mod CalendarEvents
pub mod CalendarPoller
pub mod Notifier
pub mod Poller
pub mod Preferences
pub mod Webhook
pub mod Identity
pub mod Daily
pub mod Scheduler
pub mod Tests
