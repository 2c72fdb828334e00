-- ===== src/Lib.antt =====
-- Tensor is a server for running Ansible and Terraform jobs behind a REST API. A request passes the
-- CORS middleware (cors/cors.go) and the authentication; a handler of the package api loads the
-- object, asks the package rbac whether the user may read or change it, builds a database query from
-- the query parameters (util/query.go), and sends one page of the results (util/pagination.go). This
-- library models these parts, which decide who sees and changes what, the random strings of
-- util/uniuri.go, and the command and the life of an Ansible job (exec/ansible), with the cloud
-- credential that it is given (exec/misc/cloud.go), the encryption of secrets (util/cipher.go) and
-- the start of the SSH agent (ssh/agent.go). The handlers of projects, credentials,
-- inventories, hosts, organizations, teams, users, job templates and jobs (api) compose these parts.
--
-- Files and sources:
--
-- Prelude     shared names; Boolean tests, lists, byte texts with Go's `strings.Split`, `ToLower` and
--             `Trim`, and Go's `int` of 64 bits
-- Mongo       the filters that the access checks write as `bson.M`, and their documented meaning
-- Models      records of models/common, models/ansible and models/terraform, with the fields that the
--             checks read, and the documents that their tags give
-- Database    the reads of the database at one moment, and what the checks rely on; its child Server has
--             the updates of role lists
-- Rbac        rbac/*.go: Engine (rbac/engine.go, and the loop over the roles that the other files
--             repeat), and one module for each of organization.go, team.go, user.go, project.go,
--             credential.go, inventory.go, jobtemplate.go and terraformjobtemplate.go, with `read`,
--             `write`, `read_by_id`, `associate` and so on for the methods `Read`, `Write`, `ReadByID`,
--             `Associate`; the proofs are in Engine.Laws, Decisions, Resources, Templates, Order,
--             Grants and Escalation
-- Cors        cors/cors.go; Cors.Headers, Cors.Origin and Cors.Preflight prove
-- Pagination  util/pagination.go; Bounds, Walk and Overflow prove
-- QueryParser util/query.go, one function for each lookup; Laws proves
-- Uniuri      util/uniuri.go; Laws proves
-- Cipher      util/cipher.go, how secrets are stored; Laws proves
-- Ssh         ssh/agent.go, the start of the SSH agent
-- Cloud       exec/misc/cloud.go; Laws proves
-- Ansible     exec/ansible/ansible.go: buildParams, in Ansible.Command getCmd, and in Ansible.Life
--             ansibleRun with exec/ansible/logging.go; Ansible.Moves has the abstract states of a
--             job and their moves; Phases, Recorded, Settled, Ends and Success prove
-- Api         the handlers: Api itself has what they share (api/util.go); Api.Project,
--             Api.Credential, Api.Inventory, Api.Organization, Api.Team, Api.User, Api.Template,
--             Api.TerraformTemplate, Api.Host, Api.Job and Api.TerraformJob have the requests on one
--             object, their children Update those that change one, Lists those that list, Launch the
--             launch of jobs, Info what a launch asks for, AssignRole with Api.Roles the assignment of
--             roles; Api.AccessList and its child Kinds have api/acl.go. The proofs are in Routes,
--             Listing, Removal, Paging, Effects, AccessList.Laws, Credential.Secrecy, User.Escalation,
--             User.Empty, Template.Launched, Template.Queued, TerraformTemplate.Routes, Job.Unlisted,
--             Host.Moved, Orphans and the modules Created
-- Examples    tests, and the theorems at concrete inputs
--
-- State and outside code. MongoDB and its driver are not in the repository. A check takes a record
-- `Database` of the reads that it makes, a failing read included; `IsDocumented` says that a count
-- which succeeds is the number of stored documents that match the filter, and that one which fails
-- counts nothing; `IsUp` says that the counts succeed. "To act as an admin" of an organization is
-- what the query of IsOrganizationAdmin asks of the stored document: one entry of the role list
-- names the user, and one, perhaps another, carries the role "admin". An update goes to a `Server`
-- with a store of its own, and `Keeps` says what a successful `$addToSet` or `$pull` leaves. Small
-- concrete instances of all of these are in Examples. The middleware's context is a record that the
-- functions return anew. A job's command takes the answers of the file system, the encoder of the
-- extra variables and the decryption as arguments, the last as a total function, so that get_cmd
-- and the cloud credentials stand for secrets that `Decipher` opens without a panic; the keys are
-- deciphered by the model of util/cipher.go, panics included; `get_cmd` returns the command and what is
-- recorded in the job.
--
-- A handler is a function to the list of events that it causes, in their order: the writes that it
-- sends to the database, each with its success, the responses with their statuses and bodies, and a
-- panic. What it reads is a record `Reads` of arguments, and `works` says which writes succeed. A
-- middleware gives the object to its handler or refuses; `through` puts the two together. `effects` are
-- the writes that succeeded. Only AssignRole works on the store of a `Server`, since what it changes
-- is what the access checks read. Links and summaries of the responses, which metadata adds, are left
-- out, as are the fields of documents that no handler here reads or writes.
--
-- Loops and bounds. All loops recur on a list, the one that waits for a previous job on the list of
-- its polls, but for the one of UniqueNewLenChars, which recurs on the blocks that the random source
-- fills; a theorem says that it ends once these hold enough bytes.
-- Integers of the pagination are 64 bits wide and wrap round. The quotient that `math.Ceil` rounds is
-- taken exactly, as floats do below 2^40 items. Header texts whose case is folded are ASCII.
--
-- Not modelled: logging; the handlers of groups, the dashboard and the queue; of organizations
-- GetCredentials, of inventories the script, the tree and the lists of what belongs to one, and the
-- two GetRoles, which answer with a constant; the delivery of Ansible jobs, the executor of
-- Terraform jobs and the synchronisation of projects (exec); the metadata of responses; validation,
-- authentication and the queue, which are calls of libraries outside the repository, as are the
-- parser of SSH keys and the protocol of the SSH agent.
pub mod Ansible
pub mod Api
pub mod Cipher
pub mod Cloud
pub mod Cors
pub mod Database
mod Examples
pub mod Models
pub mod Mongo
pub mod Pagination
pub mod Prelude
pub mod QueryParser
pub mod Rbac
pub mod Ssh
pub mod Uniuri
