-- ===== src/Lib.antt =====
-- The program is the server of a web application in layers: entities of the domain, repositories
-- over a database library, services, use cases and the interfaces around them: routes over HTTP, a
-- queue of events, websockets, hooks that call other servers, and files. The files stand for these
-- parts:
--
-- Base: library names passed on, the conditional, Boolean tests, and the list functions over the
-- native numbers.
-- Value: the values of the language as finite trees, and
-- src/modules/common/utils/dataValidations.util.ts. Date and time of the run time and of its date
-- library are the record Platform.
-- Objects: src/modules/common/utils/objectRecursiveFunctions.util.ts (clone_object is cloneObject,
-- check_fields_existence is checkFieldsExistence, replace_fields is replaceFields) and
-- maskSensitiveData of src/modules/api/middlewares/Request.middleware.ts. Its submodules hold
-- paths into a value and the proofs on checking, replacing, copying and masking.
-- Exceptions: src/modules/core/errors/Exceptions.ts, with the status of each kind;
-- Exceptions/External is src/modules/common/utils/externalErrorParser.util.ts; Exceptions/Filter
-- is src/modules/core/errors/AbstractExceptions.filter.ts with
-- src/modules/api/filters/HttpExceptions.filter.ts.
-- Entities: src/shared/internal/classes/AbstractEntity.entity.ts and the classes of
-- src/modules/domain/entities, as records whose fields are values; a method is a function that
-- takes the time of the call and returns the changed record. The getters are the fields.
-- Effects: asynchronous methods, as functions from the state of the outside world to a result and
-- a state; what was written before an error stays written.
-- Store: the interface of the database library, a record of operations on such a state. It is a
-- parameter everywhere: nothing is assumed of it but what a theorem names.
-- Repository: src/modules/core/infra/database/repositories/AbstractRepository.repository.ts.
-- Cryptography: src/modules/core/security/Cryptography.service.ts, over the record NodeCrypto,
-- which stands for the cryptography of the run time, the salts and the token library.
-- Users: src/modules/app/user. Users/Query and Users/Mapper are the query builders and the
-- mappers, Users/Repository the two repositories, Users/Service and Users/PreferenceService the
-- services, Users/Strategy the rules on who may do what, and Users/UseCases the six use cases.
-- Users/Example is a concrete backend on which the theorems are run.
--
-- Cryptography/Ciphers: its ciphers and signatures.
-- DataParser: src/modules/common/utils/helpers/DataParser.helper.ts (to_string is toString,
-- to_object is toObject); JSON.stringify and JSON.parse are fields of Platform.
-- Dates: the durations of src/modules/common/utils/dates.util.ts.
-- Validation: src/modules/common/utils/validators/SchemaValidator.validator.ts, over any schema.
-- Guards: src/modules/api/guards/Auth.guard.ts; can_activate is canActivate, whose result is the
-- user that it puts on the request.
-- Cache: src/modules/core/infra/cache/Redis.client.ts and the keys of
-- src/modules/common/utils/helpers/CacheAccess.helper.ts, over the record CacheDriver, the client
-- library.
-- Documents: src/modules/core/infra/data/Mongo.client.ts, over the record DocumentDriver.
-- Subscriptions: src/modules/app/subscription/services/Subscription.service.ts over these two;
-- Subscriptions/Refinement compares what it answers with the documents alone. What is read of a
-- text that was written is taken from Value/Json, the documented behaviour of JSON.
-- Rest: src/modules/core/infra/integration/rest/AbstractRestClient.client.ts and
-- src/modules/core/infra/providers/RestMockedService.provider.ts.
-- Webhooks: src/modules/app/hook/services/Webhook.service.ts; start_hooks is the loop of pullHook.
-- Aws: the four clients under src/modules/core/infra/integration/aws, each a module of its name,
-- over the record AwsClient, whose send takes the name and the input of a command.
-- Events: src/modules/events. Events/Producer, Events/Handler and Events/Consumer are the queue,
-- Events/Client and Events/Server the two ends of the websockets, Events/Guard and Events/Filter
-- what stands before and behind the server. The consumer's field errorsCount is a number beside
-- the state of the world. Events/Consumer/Counter has the signals of the queue's library as a data
-- type and their sequences as a relation. Events/Example is a world that notes what is asked of
-- it.
-- Files: src/modules/app/file and src/modules/app/reports, over bytes of any type.
-- Api: what runs before a handler, of src/modules/api, with the three throttlers of
-- src/modules/core/core.module.ts, which the library's guard runs one after the other; Api/Users
-- is src/modules/app/user/api/controllers/User.controller.ts, and Api/Routes the other controllers
-- and src/modules/graphql/connections.
-- Start: src/modules/core/start/Lifecycle.service.ts, src/modules/core/cron and the test of the
-- connection in src/modules/core/infra/database/connection.ts.
-- Config: src/modules/core/configs/envs.config.ts, the type of the settings and, in Config/Envs,
-- the settings that an environment gives; parseInt is an argument. The other files take single
-- settings as parameters.
-- Logger: src/modules/core/logging; log_at stands for the six methods that the levels name. What
-- the log library adds to a line, the time and the colours of a level, are arguments.
-- Trackers: src/modules/core/errors/trackers.ts,
-- src/modules/common/utils/packageInfoReader.util.ts and validateKnownExceptions of
-- src/modules/core/configs/nestListen.config.ts.
--
-- A route runs the throttlers, the token guard and the validation before a use case. A use case
-- calls the services, a service the repositories and the cryptography, a repository the database
-- library; errors of a layer are caught and replaced by the next, as in the source. A new socket
-- saves a subscription and dispatches an event to the queue; the consumer hands each message to
-- the handler, which sends it on through the client of the websockets and pulls the hooks of its
-- event.
--
-- There is no fuel: values are finite trees, and all recursion is on their structure or on a list.
-- A value that contains itself is therefore not modelled; on one the source would not terminate.
-- Numbers in values are natural numbers; the program compares them and passes them on.
--
-- Calls that the source starts together take effect one after the other, in the order in which it
-- starts them; where it does not wait for them, their outcome is dropped and their effect kept.
-- Each call sees one time. An identifier of an entity is a text, as its type says. Entities always
-- pass their validation by class. What a call takes from chance, an identifier or an
-- initialization vector, is an argument.
--
-- Not modelled are the stream of keys that the cache removes, files that are read as streams, the
-- schemas of bodies and queries, which are declarations for a library, the check that an
-- identifier is a UUID, generated key pairs, the start of the server, documentation and DTOs. Most
-- of these only pass data to third-party libraries.
pub mod Base
pub mod Value
pub mod Objects
pub mod Platform
pub mod Exceptions
pub mod Entities
pub mod Users
pub mod Guards
pub mod Subscriptions
pub mod Effects
pub mod Store
pub mod Repository
pub mod Cryptography
pub mod DataParser
pub mod Aws
pub mod Cache
pub mod Documents
pub mod Rest
pub mod Webhooks
pub mod Validation
pub mod Events
pub mod Api
pub mod Files
pub mod Start
pub mod Dates
pub mod Config
pub mod Trackers
pub mod Logger
