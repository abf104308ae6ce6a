-- ===== src/Lib.antt =====
-- Free-Fire-Room is a Telegram bot with a web API on which organizers announce custom rooms of a
-- game and players register for them. This library models the services under backend/app/services
-- that decide who gets a seat, what a player must have done, when an event is open, what is sent
-- when, and what follows an event: reviews, trust, claims of prizes, reports and invitations;
-- further how an admin signs in, what the panels of the organizers and the admins allow, and the
-- workers that write to many users or clear old rows away.
--
-- The database is a value, `Model.Store.Db`, as one session sees it: a table is a list of rows in the
-- order of insertion, or a function of the primary key. An operation takes the database and returns
-- its answer, a value or an error, with the database after it; what the code wrote before it raised
-- is in that database. Moments are natural numbers of microseconds, `now` is an argument, and ids are
-- natural numbers; one call reads the clock once. A trust score is a whole number of hundredths of a
-- point. Telegram is a parameter: a function from a chat and a user to its answer. The
-- settings that come from the environment are a parameter too.
--
--   Prelude         lists as tables (find, put, insert, count), Boolean tests, replies
--   Model           backend/app/core/enums.py and the rows of backend/app/models
--   Bans            services/bans.py
--   Windows         the time windows of services/reports.py
--   Reports         the reports of players, the rest of the same file; Texts has its texts
--   Telegram        get_membership of services/telegram_ops.py
--   Social          services/social.py: the pages to follow and their screenshots
--   Requirements    services/requirements.py: the checklist
--   Registration    register_user of services/registration.py
--   Waitlist        mark_ineligible, promote_waitlist and try_confirm_with_lock_sync of the same file;
--                   Fifo and Refinement see it as a queue
--   Scheduler       services/scheduler.py: the jobs of an event
--   Lifecycle       services/events.py from the submission of an event on
--   Creation        create_event, copy_event and repeat_event of the same file, and seed_tasks
--                   of services/social.py
--   Delivery        services/credentials.py: deliver_one and queue_late_credentials
--   Jobs            backend/app/workers/tasks.py: jobs without Telegram, and retries
--   Dispatch        _send_credentials of the same file: the loop over the players of an event
--   Paging          backend/app/bot/paging.py: the pages of a list
--   Trust           services/trust.py, and services/organizers.py but for the public profile
--   Reviews         services/reviews.py
--   Winners         the claims of services/winners.py
--   Referrals       services/referrals.py
--   Funnel          services/funnel.py
--   Clock           the clock times of core/time.py
--   Auth            services/auth.py, hit_rate_limit of core/rate_limit.py and the route of the login;
--                   Tokens has the refresh tokens
--   Moderation      bans: handlers of backend/app/bot/handlers/admin.py, routes of
--                   backend/app/api/v1/routers.py
--   Broadcast       _broadcast of backend/app/workers/tasks.py, and who confirms or pauses a campaign
--   Mailings        the reminders, the news and the digest of the same file, services/digest.py
--   Purge           the purges of the same file
--   Log             _sanitize of services/audit.py
--   Config          services/settings.py
--   Desk            the panels of backend/app/bot/handlers/organizer.py; Owner has the admins' panel of
--                   handlers/admin.py, Taps has both as one function of the button
--   System          all calls of these services as the steps of one relation
--   Tests           one small database, and each theorem at work on it
--
-- `promote_waitlist` calls itself after it has closed an entry of the waitlist; the model gives it as
-- fuel one more than the number of active entries. The loop of the purge gets one more than the number
-- of events, since each round deletes one. No other definition has fuel.
--
-- Not modelled: texts for display, prizes, the cipher of the room's id and password, and the waiting
-- of one session for the row lock of another (SELECT … FOR UPDATE returns the row at once). A new
-- row's id is an argument. A reason that the code stores in Persian is written in English. The
-- players' dialogue of the bot, most web routes, the front end, the migrations and the services for
-- channels, announcements, posters and dates are outside this library so far.
pub mod Prelude
pub mod Model
pub mod Bans
pub mod Windows
pub mod Telegram
pub mod Social
pub mod Requirements
pub mod Registration
pub mod Waitlist
pub mod Scheduler
pub mod Lifecycle
pub mod Creation
pub mod Paging
pub mod System
pub mod Trust
pub mod Funnel
pub mod Clock
pub mod Referrals
pub mod Reports
pub mod Winners
pub mod Reviews
pub mod Delivery
pub mod Jobs
pub mod Dispatch
pub mod Auth
pub mod Moderation
pub mod Broadcast
pub mod Mailings
pub mod Purge
pub mod Log
pub mod Config
pub mod Desk
pub mod Tests
