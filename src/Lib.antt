-- ===== src/Lib.antt =====
-- The yaxter backend: a micro-blogging service in Go, with an API process and workers around
-- PostgreSQL, Redis and Kafka. This library models the parts that carry its own logic, and proves what
-- they promise.
--
-- How the parts interact. A request passes the rate limit of the sign-in routes (pkg/redisx), the
-- idempotency middleware (pkg/idem) and the test of the access token before its handler
-- (internal/httpapi) calls a service; a sign-in is by password (internal/auth) or by a provider
-- (internal/auth/oauth), and rests on rotating refresh tokens. A write of a service (internal/users,
-- internal/tweets) runs in one transaction, which also puts its events into the table `outbox`
-- (internal/events, pkg/outbox). The relay (internal/relay) publishes that table in the order of the
-- ids, which pkg/snowflake makes increasing, under a node id that a process leases in a table. Three
-- consumers read the topics: the fan-out worker (internal/fanout) writes home timelines into
-- Redis, the counters (internal/counters) buffer likes and retweets, and the notification worker
-- (internal/notifications) writes rows; a record may come more than once, and each consumer tells
-- events apart by their ids (pkg/redisx, `Once`). The readers (internal/timeline, internal/users,
-- internal/notifications) give pages with cursors. pkg/sharding maps keys to databases.
--
-- Which file models what. Each operation is a function on explicit state, under the name of the Go
-- function in snake case.
--   Snowflake: pkg/snowflake/snowflake.go (`New`, `Next`, `Node`, `Timestamp`)
--   Leases: pkg/snowflake/lease.go (`AcquireLease`, `Heartbeat`, `Release`), one step for each statement
--   Sharding: pkg/sharding (`LogicalShard`, `parseRanges`, `NewMap`, `PhysicalFor`, `ForEachShard`)
--   Refresh: internal/auth/refresh.go, one step for each SQL statement, so that calls interleave
--   Auth: internal/auth (`Register`, `Login`, `Refresh`, `Logout`, `TokenPairFor`, `UserInfo`), with the
--     access tokens of jwt.go and the hashes of password.go
--   OAuth: internal/auth/oauth/flow.go (`Start`, `Callback`, `Unlink`, the linking rules of `signIn`)
--   Idem: pkg/idem/idem.go (`Wrap`), one step for each command of Redis, so that requests interleave
--   Limiter: pkg/redisx (`Allow`, the sliding window)
--   Api: internal/httpapi, the handlers with their replies, the paging parameters, `BearerAuth`, and the
--     stack of `NewHandler`; the services are arguments there, and Api/Follows, Api/Access and
--     Api/SharedKeys put the models of the services in
--   Events: internal/events/events.go and pkg/outbox/outbox.go (`Emit`, `Insert`)
--   Users: internal/users (`Follow`, `Unfollow`, `UpdateProfile`, `Followers`, `Following`)
--   Tweets: internal/tweets (`Create`, `Delete`, `Like`, `Unlike`, `Get`, and the keys of cache.go)
--   Relay: internal/relay/relay.go (`publishBatch`, `deleteOld`, `cycle`)
--   Redis: pkg/redisx/redisx.go (`Once`), and the interfaces of the Redis commands that are used
--   Fanout: internal/fanout/fanout.go
--   Counters: internal/counters (`HandleEvent`, `Flush`, `Read`, `Reconcile`)
--   Notifications: internal/notifications
--   Media: internal/media (`Create`, `Complete`, `Get`, `ProcessUploaded`)
--   Timeline: internal/timeline/timeline.go (`homeIDs`, `hydratePage`, `Profile`)
--   Paging: the cursor query and the cut of a page that the read endpoints share, and a client of it
--   Common: what these share: tests, results, lists, sorting, decimal text, `strconv.ParseInt`,
--     maps, signed integers
--
-- Conventions. A SQL statement is modelled as a function on the rows of its tables, in list form;
-- `ORDER BY` is a sort by a key that is distinct in every row. A transaction answers with the new
-- tables only when it commits, so an error leaves the old ones. PostgreSQL and Redis may fail:
-- every call has a test or an `Outcome` of the environment, which also covers a call that takes
-- effect although its caller sees an error. Redis is a record of operations with the laws of the
-- commands' documentation; keys that expire after a day are taken to last, and the lock of
-- pkg/idem, which lasts 30 seconds, expires as an event of the schedules. A function that panics
-- gives `none`. Ids and clock readings are native numbers, which in `Snowflake` are 64-bit patterns
-- with their wrap-around. A user name is only compared, so a number stands for it.
--
-- Fuel. `Fanout.each_follower_page`, `Relay.cycle` and the clients of `Paging` take a number of
-- rounds; the theorems on them give a number that is enough (one more than there are
-- followers, pending rows or items). `Snowflake.await` takes the clock readings it is given. The search of
-- a free username in `OAuth` takes two rounds more than the largest number at the end of a username that
-- begins like the candidate.
--
-- Not modelled: routing, JSON and protobuf codecs, cookies' attributes, metrics, tracing and logs; the
-- HTTP calls to the OAuth providers; the generated code; image processing; process start-up; the
-- hot-key loader, which is a wrapper of a cache and of singleflight; the advisory lock of the
-- relay. The wall clock, SHA-256, Argon2, the signatures of access tokens and randomness are parameters.
pub mod Common
pub mod Snowflake
pub mod Sharding
pub mod Api
pub mod Auth
pub mod Counters
pub mod Events
pub mod Fanout
pub mod Idem
pub mod Leases
pub mod Limiter
pub mod Media
pub mod Notifications
pub mod OAuth
pub mod Paging
pub mod Redis
pub mod Refresh
pub mod Relay
pub mod Timeline
pub mod Tweets
pub mod Users
