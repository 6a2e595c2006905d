-- ===== src/Lib.antt =====
-- CourtKnights: the Go API of a sports platform (api/) and oauthfake (tools/oauthfake), the fake
-- OAuth provider that it is developed against.
--
-- A request to the API passes the JWT middleware and a handler (api/internal/api), which calls a
-- manager (api/internal/application); a manager uses the entities and rules of
-- api/internal/domain, and reaches the database, the tokens and the OAuth providers through the
-- adapters of api/internal/infrastructure. oauthfake answers for Google and GitHub in tests.
--
-- Shared:
--   Common                   library names, Boolean tests, lists, texts, Go maps, url.QueryEscape
--   Errors                   domain/ckerrors and the sentinels of the other packages; an error is
--                            the tree that fmt.Errorf builds, which errors.Is and errors.As search
--   Action                   a Go function that may fail and changes a state: S → Result A × S;
--                            what was written before an error stays written
-- Domain (api/internal/domain):
--   Domain.User, Domain.Pat  the entities and the contracts of their repositories
--   Domain.Profile           profile, merge patch and contract of the repository
--     .Location              ValidateLocation (validate.go)
--     .Merge, .Contract      what a merge patch means, and what a repository promises
-- Infrastructure (api/internal/infrastructure):
--   Infrastructure.Jwt       jwt/jwt.go: New, NewWithConfig, Sign, Validate
--   Infrastructure.Oauth2    oauth2/*.go: pollDeviceToken and the adapters of Google and GitHub over
--                            the answers to their requests; .Config is NewGoogle and NewGitHub, and
--                            .Requests the requests and the reading of their answers
--   Infrastructure.Postgres  user_repository.go, pat_repository.go and profile_repository.go over
--                            tables of rows, with the constraints of db/migrations. In .Profiles,
--                            .Builder is the updateBuilder, with its clauses as data that
--                            build_update_query prints, and .Table what PostgreSQL does with them
-- Application (api/internal/application):
--   Application.Profile      profile/manager.go; .Location has the theorems on applyLocationRules,
--                            .Update those on Update
--   Application.Auth         auth/manager.go; .Users is user_manager.go and helpers.go, .Oauth is
--                            oauth_manager.go, .Jwt is jwt_manager.go, and the modules below .Users
--                            have their theorems
-- Api (api/internal/api):
--   Api.Common               common/middleware.go; Api.Auth, Api.Pats and Api.Users are the
--                            handlers of auth/, pats/ and users/; Api.Access is about who may use
--                            the endpoints of administrators
--   Api.Profile              profile/patch.go (.Patch), profile/handler.go and
--                            common/mergepatch.go (.Handler, and .Listing for listUsers)
--   Api.Router               router.go and the routes.go of the features, as tables of routes
-- Cmd (api/cmd/server):
--   Cmd.Config, Cmd.Flags    config.go and command.go
--   Cmd.Run                  server.go: buildProviders, runBootstrap and runServer, which put the
--                            managers, the repositories and the adapters above together
-- Oauthfake (tools/oauthfake):
--   Oauthfake.Identity       identity.go
--   Oauthfake.Store          store.go, with each method as a function of the store, the clock and
--                            the random bytes; .History has the calls as steps and runs of them
--   Oauthfake.Server         server.go; .Relay follows the errors of the device grant from the fake
--                            through the API
-- Tests has runs at concrete inputs.
--
-- A UUID is its 128-bit number and a time its nanoseconds, both natural numbers; nothing here adds
-- to them beyond what time.Time holds. All recursion is on lists and texts; the one loop without a
-- bound, that of newUserCodeLocked, is over the list of the blocks that the random source gives,
-- and has no result if each of them is taken; Oauthfake.Store.UserCode.Loop is about when it ends.
-- The interval of a poll is a natural number too, which grows by five seconds at a time and stays
-- far below 2^63 nanoseconds. The mutex of the store makes each of its methods one
-- step.
--
-- Parameters: the dataset of countries, golang-jwt, golang.org/x/oauth2, Cobra, Viper, pgxpool, Echo
-- with its binding of requests and its choice of a route, the HTTP client, and of Go's own library
-- SHA-256, the random source, the clock, strings.ToUpper, encoding/json, net/url, and the parsers
-- of UUIDs, times, forms and media types. PostgreSQL is modelled by what its manual says of the
-- statements used; it answers every query, and the lengths of columns are not modelled; a time
-- and a date are stored as they are, where TIMESTAMPTZ keeps microseconds and DATE the day. How it
-- sorts (its collation, and the order of rows that ORDER BY does not tell apart, which may be
-- another one for each query) is the parameter Ordering, and the JSONB column of preferences is an object of texts, which is
-- all that the repository writes. Not modelled: logging, the limits on bodies, the routes and HTML
-- pages of oauthfake, the two main.go files, and what is not Go.
pub mod Common
pub mod Errors
pub mod Action
pub mod Domain
pub mod Infrastructure
pub mod Application
pub mod Api
pub mod Cmd
mod Tests
pub mod Oauthfake
