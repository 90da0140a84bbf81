-- ===== src/Lib.antt =====
-- vps-user-portal: a web portal with which the administrators of a small server invite users, give
-- them groups and remove them. The single sign-on service reads the users from one YAML file, which
-- the portal edits; a user can also be made beforehand in an application, by a provisioner.
--
-- The parts, and the files that model them:
-- * internal/userstore/userstore.go is `Userstore`. A directory is a map from names to bytes
--   (`Disk`); what other processes and failing system calls do around each step of a round of
--   `mutateOnce` is an `Attempt`, and of a whole `mutate` a `Circumstances`. `Types` has `User` and
--   the errors, `Names` ValidUsername and DeriveUsername, `Nodes` the YAML nodes (parseBytes,
--   usersMap, findUser, setMapField, decodeUser), `Snapshot` snapshot, untouchedEqual and
--   sameStrings, `Edits` the closures that Add, SetGroups and Delete hand to mutate, `Mutate`
--   mutateOnce and mutate, and `Store` the methods of Store. `add` takes the password hash that
--   ThrowawayHash of internal/userstore/hash.go makes, which is `Userstore.Hash`. `Store.Refined`
--   has sequences of calls and the list of users that they make.
-- * internal/provision/provision.go is `Provision`: the interface of a provisioner, and `Load`.
-- * internal/provision/planka/planka.go is `Planka`: `Roles` (newFromConfig, Info, roleFor),
--   `Database` (the table user_account and the SQL statements), `Users` (Provision, Sync,
--   Deprovision, Status), `Check` (Check, checkGrants) and `Connected` (all of it as a provisioner
--   of `Provision`). The count of statements run numbers what other clients do before each, whether
--   it is done, refused or done with its answer lost, and the time that it reads.
-- * internal/config/config.go is `Config`, with os.Getenv as an argument.
-- * internal/server/csrf.go is `Server.Tokens`.
-- * internal/server/server.go is `Server`: `Requests` (requireAdmin, splitGroups, selectedGroups),
--   `Invites` (parseInviteLines, deriveDisplayName, buildInviteUser), `Handlers` (handleDelete,
--   handleSetGroups), `Handlers.Batch` (handleInvite), `Pages` (handleList, handleUser,
--   handleInviteForm, and of internal/server/templates.go render and handleCSS), `Mux` (the
--   patterns of Handler and the limit on bodies), `Routes` (Handler, securityHeaders, checkCSRF),
--   `Health` (RunChecks, CheckLoop, handleHealthz), `Events` (the audit events of the handlers) and
--   `Wording` (warnings and details). A handler takes a `World`, the directory of the users file
--   with the apps, the audit log and the mails that the mail server took, to the one that it leaves
--   and a page; it calls `Userstore.Store` and any list of `Provision.Provisioner`.
--   `Handlers.Offboarded`, `Handlers.Synced` and `Handlers.Batch.Onboarded` follow a change into
--   Planka. `Routes.serve` is the whole: from a request to a response.
-- * internal/server/templates is `Server.Templates`: a page is a list of pieces, the template's own
--   text and data, and writing it escapes the data as html/template does for its place. `Frame` has
--   base.html, `Forms` invite.html and user.html, `Reports` list.html, `Results` the other pages,
--   and `Page` makes a page of a `View`. `Texts` lists the texts of the templates, which `Own` finds
--   in the pages.
-- * internal/email/email.go is `Email`: the mail and what smtp.SendMail is given.
-- * internal/audit/audit.go is `Audit`; the audit log of a `World` has the events of
--   `Server.Events`, whose `call_of` gives what `Event` is called with.
-- * main.go is `Main`: the start of the program until it listens, and the probe of its health.
-- * `Base` and `Text` hold what Go's language and standard library give: slices, maps, errors,
--   UTF-8, letter case, strings.Split, Trim and Cut, sort.Strings. `Tests` has runs on concrete
--   inputs.
--
-- Parameters. `Yaml` is gopkg.in/yaml.v3: its functions are arguments of the definitions that call
-- it; what some theorems ask of it is that it reads back the tree that it wrote (`IsFaithful`),
-- decodes an entry whose groups were replaced as before but for the groups, and reads one list of
-- strings as the groups of an entry both into a map and into a struct (`IsKeeping`). `Unicode`
-- holds package unicode's tables above ASCII. HMAC with SHA-256, Argon2, the random bytes,
-- smtp.SendMail, the parsing of a posted form, os.Getenv, os.ReadFile, os.ExpandEnv, the database's
-- lower() and whether pgxpool.New makes a pool are arguments too.
--
-- Bounds. mutate tries four rounds (`attempts`) and then fails, as the source does. Decimal
-- numerals have at most twenty digits (`Text.Decimal.print`), which is enough for an int64. All
-- other loops are structural on a list, a node or a byte string.
--
-- Not modelled: the style sheet, the path cleaning of net/http, timeouts and signals of main.go;
-- the mutex of Store, which the file lock subsumes between calls; file modes and ownership; the
-- wording of the errors of the store, the apps and the mail server, which the pages take as an
-- argument (`Server.Wording.Words`).

pub mod Base
pub mod Text
pub mod Yaml
pub mod Userstore
pub mod Provision
pub mod Planka
pub mod Config
pub mod Email
pub mod Server
pub mod Main
pub mod Audit
mod Tests
