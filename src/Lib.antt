-- ===== src/Lib.antt =====
-- A verification library of passwall-server: the services that decide who may open which vault, which
-- policies hold in an organization and which subscription it has.
--
-- The program's parts. Handlers (internal/handler/http) parse requests and call services
-- (internal/service); a service checks the request against what it reads from repositories
-- (internal/repository/gormrepo), changes a record (internal/domain) and saves it. The library models
-- services with their repositories and records:
--   Emergency     emergency access, internal/service/emergency_access_service.go: the record and its
--                 table (Record), the operations (Service), requests as values and what each may
--                 change (Lifecycle), and proofs (Accounting, Safety, Provenance).
--   Subscription  subscriptions, internal/service/subscription_service.go: the row, its table and the
--                 choice of the effective one (Record), the operations (Service), the webhooks of
--                 RevenueCat that call them, internal/service/revenuecat_service.go (RevenueCat),
--                 ChangePlan of internal/service/payment_service.go (PlanChange), the calls
--                 as values (Calls), and proofs (Effective, Uniqueness, Checks, Operations,
--                 StoreChanges, StoreEvents, Upkeep, Revival).
--   Policy        organization policies, internal/service/organization_policy_service.go: the types,
--                 tiers and prerequisites of internal/domain/organization_policy.go (Catalog), the
--                 row (Record), the operations (Service), and proofs (Dependencies, Updates,
--                 Soundness).
--   Plan          plan codes and policy tiers, internal/domain/organization.go and
--                 internal/domain/organization_policy.go (Code), and proofs (Families).
--   Membership    the membership record and its role tests, internal/domain/organization.go (Record);
--                 the tables that belong to it (Tables); changing a role, removing a member and
--                 declining an invitation, internal/service/organization_service.go (Service); and
--                 proofs (Statements, Removal, Owners,
--                 Assignment).
--   Organization  how members come to an organization, internal/service/organization_service.go: the
--                 tables (Tables), the default team and collection (Defaults), inviting, accepting,
--                 confirming and adding (Invitations), and proofs (Lookups, DefaultTeam, Origins,
--                 Acceptance).
--   Collections   collections and the access to them, internal/service/collection_service.go: the tables
--                 (Record), access (Service), creating, changing and deleting (Folders), the lists of
--                 collections (Reads), and proofs (Granting, Deleting).
--   Permission    what a role may do: internal/domain/permissions.go (Matrix),
--                 internal/service/permission_service.go (Service), and proofs (ReadOnly).
--   Authz         internal/authz: role policy (Roles), access to a collection (Collections), and
--                 proofs (Grants).
--   FailedLogin   the limit of failed logins, internal/service/policy_failed_login.go (Tracker), and
--                 proofs (Counting).
--   Enforcement   what policies forbid: the settings that a policy holds (Parsers) and the checks
--                 (Gates), internal/service/policy_enforcement.go; the firewall,
--                 internal/service/policy_firewall.go (Firewall); and proofs (Refusal, FirstMatch,
--                 Rules).
--   Send          secure sends, internal/service/send_service.go: the row and its table (Record), the
--                 operations (Service), and proofs (Rows, Conditions, Access, Limit, Ownership,
--                 Sharing, Retention).
--   Verification  verification of email addresses, internal/service/verification.go: the tables
--                 (Record), the operations (Service), and proofs (Codes, Success, Confirmation).
--   RateLimit     the limit on requests, internal/handler/http/ratelimit.go (Limiter), and proofs
--                 (Visitors, Budget).
--   Kdf           settings of the key derivation, internal/domain/kdf_config.go (Config), and proofs
--                 (Bounds).
--   Base          results, stateful code, tables, and rules for them. Tests: the theorems at concrete
--                 inputs.
--
-- The policy service reads memberships (Membership) and plan codes (Plan); the subscription service
-- reads plan codes, and a change of the plan reads memberships; collection access reads memberships.
-- The checks of Enforcement, the tracker of failed logins and sends read policies; Organization works on the tables of Membership and on its own.
--
-- How code corresponds to definitions. A Go function `(T, error)` is a `Result T`; one that writes is
-- of type `M Table T`, a function from a table to a result and a table, so that what it wrote before an
-- early return stays written. Names are those of the code in snake_case. gorm and the database are
-- not code of the repository: `Gorm` is a record of the statements, and `IsGorm` is what the program
-- relies on, where every statement may fail; a table in memory shows that this can hold. `Answers`,
-- which some theorems suppose, says that no statement fails. Other
-- services, the clock, the drawn identifiers, the Stripe client and Go's text functions are
-- arguments. Times are numbers.
--
-- Every loop is over a list, by recursion on it, so that there is no fuel. Identifiers are natural
-- numbers, without the bound of Go's `uint`; no operation does arithmetic on them.
--
-- Not modelled: emails and logs (no state), associations that gorm loads and saves with a row, order
-- clauses, creating, changing and deleting an organization, the marking of invitations at the end of
-- AcceptInvitation, the user and organization that an event of RevenueCat names, negative numbers in
-- the settings of a policy, two requests that interleave between their statements, and the parts of the program that are input and output
-- (handlers, email, configuration, clients of external services).
pub mod Base
pub mod Authz
pub mod Collections
pub mod Emergency
pub mod Enforcement
pub mod FailedLogin
pub mod Kdf
pub mod Membership
pub mod Organization
pub mod Permission
pub mod Plan
pub mod Policy
pub mod RateLimit
pub mod Send
pub mod Subscription
pub mod Verification
pub mod Tests
