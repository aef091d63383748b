-- ===== src/Lib.antt =====
-- The storage framework: providers of cloud storage, each a D-Bus service in a process of its own,
-- and the client library that reaches them. A client calls a method of a provider; the provider's
-- process authenticates with the account's credentials, runs the method and replies, or replies with
-- an error that names an exception. An upload or a download goes over a socket whose other end the
-- reply of the opening call carries, and ends with a call that finishes or cancels it. The provider
-- keeps a table of these jobs and cancels those of a client that leaves the bus.
--
-- Errors: what a provider's exception becomes on its way to the client.
--   Errors/Exceptions    src/provider/Exceptions.cpp: the classes, type(), error_message(), what()
--   Errors/Marshal       src/provider/internal/Handler.cpp: marshal_exception
--   Errors/StorageError  src/qt/internal/StorageErrorImpl.cpp: the constructors and factories; an
--                        assertion that fails is `none` where the flag `asserts` is set
--   Errors/Unmarshal     src/qt/internal/unmarshal_error.cpp: unmarshal_error and its table
--   Errors/RoundTrip     the exception and the error together
-- Jobs: the table of pending jobs, src/provider/internal/PendingJobs.cpp.
--   Jobs/Pending         the two ordered maps, the counts of services, the watcher (a parameter), and
--                        add_*, remove_*, watch_peer, unwatch_peer, service_disconnected
--   Jobs/Ranges, Counts, Watch, Disconnect  the client's range of a map, its count, each operation
-- Client: the objects of the client that carry data, and its listings.
--   Client/Uploader, Client/Downloader  src/qt/internal/UploaderImpl.cpp and DownloaderImpl.cpp: one
--                        function for each method and for each continuation (process_reply,
--                        process_error of the constructor, finish_reply, finish_error of close). The
--                        signals and provider calls are a list of effects, in order
--   Client/Listing       src/qt/internal/ListJobImplBase.cpp and the three jobs that deliver items:
--                        page_* for MultiItemListJobImpl, one_* for MultiItemJobImpl, list_* for
--                        ItemListJobImpl. What validates an item is the parameter `accept`
--   Client/Validate      src/qt/internal/validate.cpp: validate throws an error or nothing
--   Client/Accounts      src/internal/AccountDetails.cpp, src/qt/internal/AccountImpl.cpp and RuntimeImpl.cpp:
--                        the comparisons, roots, get, shutdown; the calls of a provider as data (`Call`)
--   Client/Items         src/qt/internal/ItemImpl.cpp: a method gives the job that it starts (`Started`):
--                        refused, empty, or waiting for calls with the check of their answers
--   Client/Items/Order, Calls, Answers  the order of items, which requests reach the provider, and what
--                        their answers become
--   Client/Jobs          src/qt/internal/ItemJobImpl.cpp, VoidJobImpl.cpp, AccountsJobImpl.cpp
--   Client/Socket        what the code needs of QLocalSocket, a parameter
--   Client/*/Session, Lifecycle, Transfer  all orders of calls and answers, and the bytes sent
-- Provider: the jobs on the provider's side.
--   Provider/Completion  src/provider/internal/UploadJobImpl.cpp and DownloadJobImpl.cpp: the sockets,
--                        the completion promise and the lock; a thread that waits for a lock it holds
--                        itself is `none`
--   Provider/Upload      src/local-provider/LocalUploadJob.cpp: on_bytes_ready, finish, cancel. What
--                        the file system answers during one call is the parameter `Disk`
--   Provider/Interface   src/provider/internal/ProviderInterface.cpp: the calls that open and end a job, over
--                        the table of Jobs/Pending; a class of jobs is a parameter (`JobClass`)
-- Local: the provider whose items are the files and folders below a root.
--   Local/FileSystem     the functions of boost::filesystem and stat(2) that it calls, a parameter;
--                        Local/Lawful states their documented behaviour, which theorems take as a
--                        hypothesis. Local/Outcome and Steps: results, exceptions and the sequence of calls
--   Local/Guards         src/local-provider/utils.cpp, throw_if_not_valid and invoke_async
--   Local/Items          make_item and get_content_type; std::to_string, strftime over gmtime_r and the
--                        MIME database are function parameters
--   Local/Operations     src/local-provider/LocalProvider.cpp: each operation, and `serve` for any of them
--   Local/Rules, Below, Confined, Ends  what an operation changes, and that it comes to an end
--   Local/Jobs           the constructors of LocalUploadJob.cpp, and LocalDownloadJob.cpp with Jobs/Sending
--   Local/Jobs/Chunks, Runs, Opening, Etags  the bytes of a download, and the ETags
-- Requests: one request of a client, at the provider.
--   Requests/Account     src/provider/internal/OnlineAccountData.cpp: authenticate, on_authenticated,
--                        on_changed; what the accounts service answers is the parameter `AuthReply`
--   Requests/Handler     src/provider/internal/Handler.cpp: a function for each continuation and queued
--                        call. Handler/Steps runs it against the events of its account and of others
--   Requests/Peers       src/provider/internal/DBusPeerCache.cpp: get and received_credentials over the two
--                        generations; Peers/Runs takes them in every order
-- ClientV1: the first client library, with an API of its own; what is below is in src/qt/client, and the
-- headers in include/unity/storage/qt/client/internal.
--   ClientV1/Exceptions, Future  Exceptions.cpp; make_future.h: what is reported to a future, in order
--   ClientV1/Uploads     internal/local_client/UploaderImpl.cpp: UploadWorker, a function for each slot. The
--                        system calls, QFile with its buffer and the client's socket are the parameter `Host`; `none` is abort()
--                        or the use of a null pointer. Uploads/Runs: the slots in every order, with what
--                        the client does to the file object meanwhile. Its data are in Uploads/Worker,
--                        finalize and what it calls in Uploads/Finalize
--   ClientV1/Uploads/Reading, Contents, Targets, Results, Finishing, Settled  what holds of a run
--   ClientV1/Downloads   internal/local_client/DownloaderImpl.cpp: DownloadWorker, over the parameter
--                        `Channel`; Downloads/Runs, Accounts, Sound, Waiting
--   ClientV1/World       internal/ItemBase.cpp and local_client/storage_exception.cpp: the store of objects,
--                        a call as a function on the store and the file system, and its answers: a value, an
--                        exception of the library, an error of the file system
--   ClientV1/LocalItems  internal/local_client/ItemImpl.cpp, with Objects for its checks, Copies for copy(),
--                        Folders for FolderImpl.cpp, FileImpl.cpp and RootImpl.cpp, and Requests for the
--                        calls on an object that test whether its item was deleted
--   ClientV1/LocalItems/Deleted, Marks, Handled, Ends  objects whose item is gone, and how a copy ends
--   ClientV1/RemoteItems internal/remote_client/ItemImpl.cpp, FolderImpl.cpp, FileImpl.cpp, RootImpl.cpp and
--                        Handler.h: Requests has what a call sends (`Message`), Handlers what is reported
--                        of a reply, Validate validate.cpp, and Replies the theorems
-- Base: texts, integers, keys and ordered maps; Examples: the theorems at concrete inputs.
--
-- All recursion is structural but that of copy_recursively, which has fuel: it follows symbolic links, so
-- that only the bound on the length of a path ends it, and that bound plus two is enough, as each level
-- makes the path longer; the first client's copy_recursively has the
-- fuel `env.fuel`, for which the same is enough. The root of the local provider is not "/" where a
-- theorem says so: its ids would be tested against the prefix "//". Byte counts are natural numbers
-- where the code's are unsigned or were tested, and integers where they are signed 64 bit and may be
-- negative; a file of 2^63 bytes and a time of
-- modification 292 years from 1970 are out of reach, and their wrap-around is left out. A file keeps its
-- content while it is downloaded. What runs in one thread of an event loop is one step; the
-- orders of steps are explicit. Logging is left out.
--
-- Not modelled: the calls that the provider interface only passes on, temporary file uploads, the
-- environment variables that name the local provider's root, the D-Bus adaptor and marshalling, the
-- registry, the accessors that return a member, and the sources that only forward, log or start
-- processes. Of the first client library: the uploader and downloader of the remote client, accounts and
-- runtimes, the constructor of a local root, the threads and socket pairs that an upload or a download
-- sets up, the mutexes, signals that arrive while a slot runs, and the second page of a remote listing,
-- whose handler the code does not keep.
pub mod Base
pub mod Errors
pub mod Jobs
pub mod Client
pub mod Provider
pub mod Requests
mod Examples
pub mod Local
pub mod ClientV1
