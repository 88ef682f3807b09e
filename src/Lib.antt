-- ===== src/Lib.antt =====
-- The backend of the Traveleke hotel booking service, a NestJS application on MySQL (through TypeORM)
-- and Redis, under backend/src. Guests register and log in, search hotels, and book rooms; staff and
-- administrators take the bookings through their life cycle.
--
-- Parts and files. Paths are from the repository's root.
--   Base        shared helpers: Boolean tests on the native numbers, lists as the rows of a table
--               (`select`, `first`, `count`, `map_where`), sums, results, texts, a stable sort.
--   Database    backend/src/common/database/transaction-retry.helper.ts. Errors: which errors are
--               transient, and the backoff. Retry: the loop of `runWithDeadlockRetry`. LockOrder:
--               `deterministicSort`. Repo: what the services use of a TypeORM repository.
--   Pagination  backend/src/common/pagination/pagination.helper.ts. Pages: the page of a query that it cuts.
--   Booking     backend/src/bookings/bookings.service.ts. Model: the entities and a transaction over
--               the four tables. Quote: the checks and the price of `create`. Assign:
--               `autoAssignHotelStaffInternal`. Create: the transaction of `create`, its idempotency
--               cache in Redis and its notification. Status: `updateStatus`. Reassign:
--               `reassignStaff`. Inventory: the rooms that are available and that bookings hold.
--               Inventory/Stored: what a transaction that returns
--               has stored. History: sequences of committed transactions.
--   Auth        backend/src/auth/auth.service.ts. Users and Model: the accounts and the refresh
--               tokens. Rotate: `rotateRefreshToken`, `logout`, `logoutAll`, `getMe`. Login: `login`,
--               `register`, `verifyEmail`, `resendVerification`. Ends, SingleUse, Families, History,
--               Sessions, Closing, Accounts and Races are about these.
--   RateLimit   backend/src/rate-limit/scripts/sliding-window.script.ts. Window: the script, on the sorted
--               set of one key. Allowed: which requests it lets through.
--   RedisLock   backend/src/redis/redis-lock.service.ts: `acquireLock` and `releaseLock`. Exclusive: what
--               others can do meanwhile.
--   Catalogue   backend/src/hotels/hotels.service.ts and backend/src/rooms/rooms.service.ts. Slug: `normalizeSlug`
--               and `buildUniqueSlug`. Album: the pictures of a hotel or room, written once for both,
--               over an interface Owner. Hotels and Rooms: `create`, `update`, `remove` and the
--               calls on albums; Rooms/Stale is about a room that is booked meanwhile. Search:
--               `findAll` of both, and `search` of hotels; Listed: the pages of the latter.
--   Users       backend/src/users/users.service.ts. Service: its operations. Routes: the routes of
--               backend/src/users/users.controller.ts behind `JwtStrategy.validate` and `RolesGuard` of
--               backend/src/auth. History and OwnId: who can take an administrator away.
--   Requests    backend/src/services/services.service.ts. Offered: the catalogue of services. Service: the
--               requests of guests and the recovery from failures. Snapshots: `createBookingSnapshots`.
--               Viewed and Entitled are about these.
-- `create`, `updateStatus`, `reassignStaff` and `rotateRefreshToken` all write inside
-- `runWithDeadlockRetry`, so the theorems about them rest on those of Database/Retry. The calls of Catalogue,
-- Users and Requests write without a transaction: where one throws, what it wrote before stays.
-- `addImages` reads its owner with the list of its pictures and saves it with that list; the ORM takes a
-- picture that is not in the list from its owner, so a second picture marked as the main one throws.
--
-- State and operations. A table is the list of its rows, the database a record of tables, and a
-- transaction's callback a function from the tables to a result and the tables. An exception is an `err`
-- that carries which one it is. A query builder's UPDATE with a WHERE is `update` of a repository, its
-- `affected` the number of rows that pass the test, and `findOne` the first row that passes.
-- Other clients appear in two ways: as the changes that `Transactions.others` makes between two
-- attempts, and as the steps of a history.
--
-- Conventions. A decimal amount is a number of hundredths, years of experience a number of tenths, and a
-- moment a number of milliseconds (a DATETIME column keeps seconds). A decimal key, a UUID and a digest
-- are the numbers that they write. A text that the service composes for people is the data it composes it
-- from. `Number(x)` gives NaN, a negative or a non-negative number, which the data types Price and Number
-- tell apart. Logging and tracing are left out.
--
-- Fuel. The retry loop runs on `suc maxRetries` rounds, of which each but the last is a retry; a call that
-- ran out would give `none`. The loop of `buildUniqueSlug` has a round more than there are rows, as each
-- round but the last meets a row of its own.
--
-- Parameters. Repo states what TypeORM documents of the calls that the services make; Transactions
-- states that a transaction that returns ran in one piece and one that throws left nothing and threw the
-- callback's error or the database's. That is the SERIALIZABLE reading; where the code reads before its
-- transaction, the model reads the earlier state. A deadlock inside the callback undoes the transaction
-- also where the callback swallows the error, as the automatic assignment does: WriteFailure.
-- SortedSet and KeyCommands state what Redis documents of the commands. The other uses of Redis,
-- JSON, `toLowerCase`, `localeCompare`, `Date`, `Math.random`, random bytes, bcrypt, SHA-256, the JWT
-- library, the database's collation, its LIKE and its reading of a text as a number, which rows it refuses,
-- the removal of diacritics, the staff queries in SQL and the mail server are parameters too;
-- list-based instances stand in the tests.
--
-- Not modelled: the reports and the lists of bookings, which are SQL text; `search` of rooms, whose pages
-- depend on how the ORM pages over joined pictures; the assignments of staff to
-- hotels and the skills of the staff; the files of pictures on the disk; the token bucket and the guard
-- of the rate limits; `withLock`; the security checks of e-mail addresses and the guards of the other
-- routes; the WebSocket gateway, auditing, mail templates, logging; and the other controllers and the
-- modules, which only wire these together.
pub mod Base
pub mod Database
pub mod Pagination
pub mod Booking
pub mod Auth
pub mod RateLimit
pub mod RedisLock
pub mod Catalogue
pub mod Users
pub mod Requests
