-- ===== src/Lib.antt =====
-- SecureSwitch: the backend of a Wake-on-LAN and remote-shutdown service, as executable definitions
-- with theorems about them.
--
-- A request comes in at the router, which puts a token check (`AuthMiddleware`) and, for the admin
-- routes, a role check before the handlers. A handler works on the application's parts: the store of
-- users and device assignments, the login limiter, the loader of hosts.yaml, and the table of host
-- states that the ping manager keeps in the background. Here a handler is a function from the
-- application's state (`Server.App`) and from what the request meets outside of it (`Server.World`) to
-- the next state, the response, and the action on a device that it attempts (`Effect`).
--
-- Files, with the sources below backend/internal, but for the first:
--   Program              backend/main.go: the start of the process and its end (Program/Ending)
--   Limiter              auth/limiter.go: `LoginAttemptLimiter`; Go's method names in snake_case
--   Limiter/Ledger       the abstract view of the limiter: the last attempt of each key, kept for ever
--   Store, Store/Rows    store/store.go, users.go, admin.go: the two tables as lists of rows, each
--                        query and write as what its SQL does to them
--   Store/Directory      the abstract view of the store: a function from ids to users, with what a
--                        call that succeeds does to it and what each refusal says of it
--   Auth                 auth/auth.go: claims, tokens, `AuthMiddleware`, `AdminMiddleware`
--   Auth/Cookies         auth/auth.go: the cookie and the calls of bcrypt
--   Config               config/model.go, hosts.go: the validation of hosts.yaml
--   Loader               config/loader.go: the cache of hosts.yaml
--   Server               server/validation.go, and the state that the handlers share
--   Server/Login         server/auth_handlers.go
--   Server/Admin         server/admin_handlers.go
--   Server/Devices       server/device_handlers.go
--   Server/Router        server/router.go: the routes behind their middlewares
--   Server/Middleware    server/middleware.go: request ids, the body limit, the security headers
--   Server/Setup         server/router.go, http.go: the frontend's files, the server's settings
--   Server/Moves         each handler as a sequence of calls of the store, the limiter and the loader,
--                        and what follows for any sequence of requests
--   Monitor              device/monitor.go: the event loop of `runPingManager`, event by event, and
--                        the goroutines that it starts (`Manager.running`)
--   Monitor/Probe        device/probe.go: the ping command
--   Wol                  wol/wol.go: `selectWolNetwork` and `sendWol`, and `SendWol` (Wol/System)
--   Ssh                  sshrunner/ssh.go: `remoteShutdown` and the output counter
--   Proxies              auth/proxies.go: `ParseTrustedProxies`
--   Bootstrap            config/bootstrap.go, and `LoadJWTSecret` of auth/auth.go
--   Prelude              Go's strings, maps, integers and decimal numbers, and shared lemmas
--   Examples             concrete services and tables at which the theorems are applied
-- A component's file holds the definitions, the files in its directory the theorems, unless they are
-- listed here.
--
-- Parameters, for code that is not in this repository: the database engine (`Store.Engine`: which
-- statements report an error, the ids of new rows), the JWT library (`Auth.Jwt`), YAML decoding and
-- the parsers of package net (`Config.Formats`), the file system (`Loader.FileSystem`), package
-- net/mail and bcrypt (`Server.Services`), Unicode's case table, the format of a time, and the outcome
-- of the two actions on a device (`Server.Devices.Actions`). For the actions themselves: interfaces,
-- resolver and socket (`Wol.Network`), the SSH connection (`Ssh.Remote`), the ping command
-- (`Monitor.Probe.System`), and package netip (`Proxies.NetIp`). For the start: the files
-- (`Bootstrap.Disk`, `Bootstrap.Environment`), and the flags, the database's opening and migration and
-- gin's answer to the proxies (`Program.Machine`).
--
-- Conventions: a string is the list of its code points, with a byte that belongs to no encoding as a
-- value of its own; a time is a number of nanoseconds and does not wrap, but the product that makes a
-- ping interval does; the uint64 counters of the limiter wrap; the ids and versions in the tables do
-- not. The seconds of Retry-After are rounded up in exact numbers, which float64 also gives up to
-- 2 ^ 23 seconds. A mutex or a transaction makes a method one step. Loops are recursion on a list, but for the
-- eviction loop of the limiter, whose fuel is the number of tracked keys (each round removes one), and
-- the digits of a number, whose fuel is the number plus one.
--
-- Not modelled: gin's matching of paths, its logger and its recovery, the type declarations of imports
-- and handles, log lines, and the frontend. The request ids and headers of Server/Middleware are not
-- part of the handlers' responses.
pub mod Prelude
pub mod Limiter
pub mod Loader
pub mod Store
pub mod Auth
pub mod Config
pub mod Server
pub mod Monitor
pub mod Wol
pub mod Ssh
pub mod Program
pub mod Proxies
pub mod Bootstrap
pub mod Examples
