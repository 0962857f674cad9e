-- ===== src/Lib.antt =====
-- The backend of GraffiTab: users who follow each other post graffiti ("streamables"), like,
-- comment on and flag them, over a REST interface on Spring and Hibernate. Paths are below
-- src/main/java/com/graffitab/server.
--
-- A service method is an action: a function from the state (Backend.antt) to a result and a state.
-- The state has the database (Model.antt), the mails sent and the jobs queued. An exception is a
-- value (Errors.antt, of api/errors). `in_transaction` and `in_transaction_with_result`
-- (Backend/Transactions.antt, of service/TransactionUtils.java) roll the database back when their
-- body throws; the second wraps the exception. A call runs to its end before the next starts:
-- interleaved transactions are the database's concern. Two exceptions: the threads of the job
-- queue interleave step by step (Jobs/Queue.antt), and two registrations do between their two
-- transactions (Users/Registration/Race.antt). `Request` (Backend/Lookup.antt) is what a thread
-- knows of its user, and the time.
--
-- Model/Account.antt and Model/Content.antt are the entities of persistence/model. A reference is
-- an id, a date is in milliseconds, a text is a list of UTF-16 code units. Sessions.antt is
-- service/user/UserSessionService.java, and Http.antt the session that a request loads and saves,
-- with the filters of api/authentication and UserStatusAspect.java in Http/Filters.antt.
-- Users.antt has an area of service/user/UserService.java to each module: Validation (with
-- UserValidationService.java and Regex.antt for its patterns), Registration, Tokens, Logins (with
-- the filters of api/authentication), Following, Devices (service/user/DeviceService.java) and
-- Providers (service/user/ExternalProviderService.java), Profiles for the lists of a profile, and
-- Images for avatars and covers, whose files Assets.antt processes
-- (service/asset/AssetService.java, and service/image in Assets/Scaling.antt).
-- Users/Invariant.antt is what holds of the table of users between calls, Users/Commands.antt
-- runs histories of calls. Streamables.antt is service/streamable/StreamableService.java, with
-- Owner, Reactions, Stats (StreamableStatsService.java) and Visibility (the named queries of
-- persistence/model/streamable/Streamable.java). Comments.antt is
-- service/streamable/CommentService.java, TextUtils.antt is service/TextUtilsService.java,
-- Locations.antt is service/user/LocationService.java, and Activities.antt is
-- service/ActivityService.java with its queries, and Searches.antt the searches by text of
-- UserService and StreamableService. Paging.antt is service/paging, on 32-bit words;
-- Paging/Grouping.antt groups activities. Notifications.antt is
-- service/notification/NotificationService.java, Notifications/Push.antt the
-- PushsenderNotificationSenderService.java beside it. Jobs.antt is what the queued jobs of these
-- services do, Jobs/Queue.antt the threads of service/job/WorkQueue.java, where a worker that
-- waits goes on only when it is woken. Reports.antt is the load-test reports of
-- gatling/user-files/results-docs: Reports/Runs has the js/stats.js of each run,
-- Reports/Menu.antt its js/menu.js, Reports/Unpack.antt its js/unpack.js. DeepLinks.antt is
-- js/deep-link.js and js/contact.js of src/main/resources/public. Prelude.antt has the helpers,
-- Samples.antt the data of the tests.
--
-- Queries compare texts by their code units; the collation of the tables (database/) also takes
-- letters that differ in case or accent for equal. In the searches of Searches.antt the collation
-- is a parameter.
--
-- Parameters: the password encoder, the serialisation of a session's attributes, the check of a
-- provider's token, Hibernate's pages, in the searches the collation and the lower-case form of a
-- text, the random texts and the clock of a call, whether the image library reads a file, the
-- rounding of the sizes of an image, and the services that deliver a push. Dates and counters are
-- natural numbers without bound. All recursion is structural but that of `decimal` in
-- Reports/Menu.antt, whose fuel is one more than the number that it prints, and that of
-- `find_all` in TextUtils.antt, whose fuel is one more than the length of the text: a round reads
-- one code unit at least.
--
-- Not modelled: controllers, DTOs and configuration, which delegate and wire; mail, S3, image
-- conversion, the services of the systems for a push, and social networks, which are outside
-- services; Hibernate's merge, where the current user counts as the managed instance; the state of
-- an asset; and the search at a location.
pub mod Prelude
pub mod Errors
pub mod Regex
pub mod Model
pub mod Backend
pub mod Assets
pub mod Sessions
pub mod Users
pub mod Streamables
pub mod Comments
pub mod Paging
pub mod Reports
pub mod DeepLinks
pub mod Jobs
pub mod Notifications
pub mod Activities
pub mod Locations
pub mod TextUtils
pub mod Searches
pub mod Http
pub mod Samples
