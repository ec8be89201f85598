-- ===== src/Lib.antt =====
-- LuxuryVideoTool: the server of services/api_go, which takes share links of videos and notes,
-- queues a job for each and works it off: resolving the work, downloading the media, recognising
-- the speech.
--
-- Base has shared tests on numbers, texts and options, and lists; Sql has the SQL statements that the
-- repositories run, over a table as the list of its rows, with their laws.
-- Jobs is services/api_go/internal/jobs. Jobs/Model has the rows of the tables; Jobs/Repository
-- has one function for each statement of repository_sqlite.go, in child modules by who calls it
-- (Select, Worker, User, Claim, Recovery, Records). A guard `can_...` or `is_...` is a WHERE
-- clause on a row, `set_...` a SET clause, and a statement gives the tables that it leaves and
-- its result. Jobs/Service has the requests of service.go.
-- Jobs/Lifecycle has the soundness of the job table, the edges of a job's life cycle and what
-- all statements keep; Jobs/Leases is about the statements that ask for a lease and Jobs/Leases/Claims
-- about ClaimNext; Jobs/Recovery has what Recover leaves;
-- Jobs/Records the steps and deletion; Jobs/Listing the pages of jobs, Jobs/Listing/Pages what
-- they have and Jobs/Listing/Cut how they are cut, with SQLite's LIKE in Sql/Like; Jobs/Worker what
-- worker.go does with a job that failed; Jobs/Service/Idempotency requests under one key, and
-- Jobs/Service/Made what the creations leave in the tables.
--
-- Auth is services/api_go/internal/auth: Auth/Repository the statements of its
-- repository_sqlite.go, Auth/Token the access tokens of token.go, Auth/Service the requests of
-- service.go. Auth/Sessions is about what ends a session, Auth/Rotation about refresh tokens and
-- Auth/Token/Roundtrip about tokens that are issued and read. The tokens' HMAC, base64 and JSON
-- are a record of functions, the password hash and the digest of a refresh token functions of
-- `Settings`.
--
-- Http/Limiter is the login limiter of services/api_go/internal/httpapi/middleware.go, with the
-- map of windows as a list; Http/Limiter/Bounds and Http/Limiter/Size are about what it admits.
--
-- Http is services/api_go/internal/httpapi: Http/Request what router.go reads of a request,
-- Http/Response what it answers, Http/Session, Http/Session/Own, Http/Jobs, Http/Files and Http/Admin its handlers,
-- Http/Serve what it mounts, with requireAuth and requestMiddleware of middleware.go. A handler is a
-- do block of Exec in Http/Run: it acts on `Data` (accounts, jobs, settings, audit, limiter, disk), may
-- answer before its end, and meets `Outside`: before each of its calls others change the data, the
-- database may fail, and the clock goes on, each by the number of the call. A call of a service is one
-- step, and an error of the database leaves the data as they were; in a creation others act between
-- the lookup of the key and the INSERT too, but not between the INSERT and the end of CreateInfo, which
-- would have to be steps of their own. Service.Cancel waits for at most 100 ticks, five seconds of 50 ms.
-- Http/Keeps carries what calls and others keep through the handlers (Own, Open, Requests, Admin, Whole), for
-- the jobs of other users (Others) and the soundness of the table (Sound); Http/Access is about who gets
-- to what, Http/Secrets about the refresh token, Http/Jobs/Removal/Stops about deletion. Auth/Lists,
-- Jobs/Stats and Audit are what the handlers read and write beyond the other modules.
--
-- Resolver is the signature of services/api_go/internal/resolver: Resolver/Sm3 is sm3.go, and of
-- abogus.go Resolver/Rc4, Resolver/Base64 and Resolver/Escape have the routines and
-- Resolver/Signature the value that is put together from them. Texts are lists of bytes, a byte a
-- number below 256 and a uint32 a number below 2 ^ 32. Resolver/Examples checks the published test
-- vectors of SM3 and RC4. The padding loop of SM3 has 64 rounds and that of base64 three: the
-- lengths are counted modulo 64 and 4.
--
-- Resolver/Work has the works of model.go. Resolver/Hosts has the tests on URLs and addresses of
-- input.go, safehttp.go and media/download.go, over the URL and the addresses that the standard
-- library gives; Resolver/Hosts/Ranges reads them as ranges. Resolver/Cache is the table works of
-- repository_sqlite.go and Resolve of service.go, and Resolver/Cache/Again about asking again.
--
-- Files is services/api_go/internal/files and cleanup: Files/Repository the statements, Files/Paths
-- the paths as lists of segments with Go's Clean, Rel and Join, Files/Storage the targets of new
-- files, Files/Signer the signed links, Files/Cleanup the cleanup. Files/Paths/Inside, Files/Storage/Places and Files/Cleanup/Ends
-- have the theorems. The cleanup runs on fuel, a unit for each round; an error of Expired, a cancelled
-- context among them, ends it, and one of MarkDeleted leaves the row.
-- Settings is services/api_go/internal/settings, with the cipher as a record of functions.
-- Config is services/api_go/internal/config, with the environment and the readers of texts as a
-- record of functions, and Config/Bounds what it bounds.
-- Results is services/api_go/internal/results. Asr/Merge is Merge of services/api_go/internal/asr.
-- Media is services/api_go/internal/media: Media/Segments the cutting of SplitMP3, on one unit of
-- fuel for each millisecond and one more, Media/Download the download with the disk that it leaves.
--
-- Jobs/Worker/Run has the world that a worker acts on (the tables, the files, how often it has asked
-- for something) and `Outside`, what it meets: the clock, what others do to the tables before each of
-- its steps, faults of its statements, cancellations, and the answers of the resolver, the network and
-- the disk, each by the number of the step. Code that may fail is a do block of Exec. Jobs/Worker/Files,
-- Note and Process are processNote, process and their helpers of worker.go, Jobs/Worker/Names the names
-- and messages; Jobs/Transcription is transcription.go. Jobs/Worker/Keeps carries what the worker's statements and
-- others keep through all of them; Guarantees is about a sound table, Alone about the rows of
-- other jobs, and Jobs/Processing puts them together. Jobs/Worker/Stranded is about a disk that takes
-- no file. The worker's heartbeat is a statement among those of others.
--
-- The database has one connection (SetMaxOpenConns(1)), so statements run one after the other:
-- concurrent workers and requests are sequences of calls. Faults of the disk and the context are
-- modelled in the worker, the download, the cleanup and the handlers; the removal of a download's
-- temporary file succeeds. A time is a number of
-- milliseconds, in Config of nanoseconds; rows created at the same time are ordered as the table is;
-- the decoded options stand for options_json. The foreign keys to users and works
-- are not modelled. ExtractInput, new ids, the clock, the resolver's answer and what other requests
-- write between two statements of one request are arguments.
--
-- Not modelled: the routing of net/http, JSON, compression and streaming, the pages of Douyin and the cookie that they ask for, ffmpeg
-- and the probe, the providers of speech recognition and their budget, the pages and the clients.
pub mod Asr
pub mod Audit
pub mod Auth
pub mod Base
pub mod Config
pub mod Files
pub mod Http
pub mod Jobs
pub mod Media
pub mod Resolver
pub mod Results
pub mod Settings
pub mod Sql
