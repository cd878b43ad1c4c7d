-- ===== src/Lib.antt =====
-- webdav-serverless is a WebDAV server whose files live in S3 and whose directory tree lives in two
-- DynamoDB tables. The package webdav handles the HTTP methods over two interfaces, a FileSystem and a
-- LockSystem; the package awsfs implements the FileSystem. This library models parts of both,
-- with theorems about them. Paths below are from the repository's root.
--
-- The program's state. DynamoDB has a table of entries (an Entry for each file and directory, with its
-- id, name, parent id, type, size, time, properties and version) and a table of references; the one
-- reference, "root", maps every path to the id of its entry. S3 has an object for each file, under the
-- id of its entry. Each method of awsfs reads the reference, finds the paths that it needs, and writes
-- the reference and the entries back in one transaction, on the condition that the version of the
-- reference is the one that was read.
--
-- Files, by the code that they model:
-- - Base and its children: truth values, lists, bytes as numbers, Go maps as association lists, with
--   the functions of Go's package strings that the program calls.
-- - Errors: the errors of both packages, and effects on a state that may fail (a failure does not
--   undo what was done before it).
-- - Path (awsfs/fs.go and webdav/file.go, slashClean): slashClean, with path.Clean, filepath.Dir and
--   filepath.Base of Go's library on rooted paths. Path.Clean and Path.Parent are about their laws.
-- - IfHeader (webdav/if.go): lex, parseCondition, parseList, parseNoTagLists, parseTaggedLists and
--   parseIfHeader. A loop runs on fuel, one more than the length of the text that it is given: every
--   round takes a token off the text. IfHeader.Total is about this. IfHeader.Print prints headers for
--   the round trips, IfHeader.Shape has the invariant on what is accepted.
-- - Lock (webdav/lock.go): memLS. Its nodes are a store by their names, to which byToken and
--   byExpiry point, since byName has one node for a name and a node that leaves it has no token, is
--   not queued and is not held. The heap of container/heap is a list in the order of the expiry. A
--   function returns none where the source panics. Lock.Ops has the methods, Lock.Ops.Confirm,
--   Lock.Ops.Exclusive and Lock.Ops.Released what Confirm holds, Lock.Counts the reference counts.
--   Lock.Ops.Sound defines the invariant of the state; its children are about the operations on it:
--   Unlisted, Left and Removed (remove), Expiry (collectExpiredNodes), Changed (hold and unhold),
--   Refreshed, Referred, Added and Created (Create), Methods and Confirming (the methods as a whole),
--   Compatible and Exact (which locks Create grants), Held and Excluded (a lock that is held, through
--   later calls), Shown and Granted (the locks by their tokens). walkToRoot runs on fuel, one more
--   than the length of the name, and Lock.Names has what it gives; collectExpiredNodes runs on fuel,
--   one more than the length of the heap, which is enough on a sound state (Lock.Ops.Sound.Expiry).
--   What Lock.Ops.Confirm states supposes that the expired locks are removed. Lock.Decimal has the
--   decimal numbers of strconv, Lock.Timeout the function parseTimeout.
-- - Answers: functions that give a status with an error, or go on; Answers.Keeps has rules for what
--   leaves a view of the state alone.
-- - Property, Files (webdav/xml.go, webdav/prop.go, webdav/file.go): the types of properties, and the
--   interfaces FileSystem and File as a record of operations on one state.
-- - LiveProps, Props (webdav/prop.go): the live properties with the functions that find their values;
--   makePropstats, props, propnames, allprop and patch. What is used of Go's packages xml, mime, time
--   and http is a record of functions.
-- - FileTree (webdav/file.go): moveFiles and copyFiles, with the recursions that are left of 1000,
--   and in FileTree.Walk walkFS, on fuel. The height of the tree is enough fuel, where a directory is
--   higher than what it lists and the walk does not change the tree (FileTree.Walk.Total).
-- - MemFs (webdav/file.go): memFS, whose nodes are a store by addresses with the root at 0; a
--   directory maps names to addresses. MemFs.MemFile has OpenFile and the methods of an open file, a
--   Write against a description of it in Writing and Reading. MemFs.Tree has the invariant of the
--   nodes and the paths to them, Edges and Kept the changes of single nodes and the methods against
--   the invariant, Paths and Moved what a change makes of the paths, Names and Places where find
--   comes to, and Outcomes the methods against the map from paths to nodes.
-- - Requests, Responses (webdav/xml.go): what readLockInfo, readPropfind and readProppatch make of a
--   decoded body, the names of a propfind from tokens, multistatusWriter, writeLockInfo, and
--   makePropstatResponse of webdav/webdav.go. The decoder and the encoder are parameters.
-- - Handler (webdav/webdav.go): stripPrefix, lock, confirmLocks, parseDepth and StatusText, over a
--   FileSystem and a LockSystem; what the temporary locks need of them is a record of laws in
--   Handler.TemporaryLocks, up to a time that no request reads a later one than; memLS has them, for
--   the locks that do not end by that time (Examples.LockSystem). Handler.IfLists and Handler.Prefix
--   are about the If header and stripPrefix. Handler.Methods has the handlers of OPTIONS, GET,
--   DELETE, PUT, MKCOL, COPY, MOVE and UNLOCK, its child Locking that of LOCK, Multistatus those of
--   PROPFIND and PROPPATCH, where the fuel of the walk is an argument, and Dispatch has ServeHTTP. A
--   handler leaves a reply with its status, headers and body.
-- - Awsfs (awsfs/fs.go): Entry, Reference, EntryType.
-- - Awsfs.Dynamo: the DynamoDB client. It is not code of the repository, so it is a record of
--   requests and a record of laws: reads are consistent, the conditions of a transaction are tested,
--   a transaction is all or nothing, a request that fails changes nothing, and any request may fail.
--   Awsfs.Dynamo.Memory is an instance.
-- - Awsfs.Metadata (awsfs/metadata.go): the methods of MetadataStore. Awsfs.Metadata.Effects has
--   what each does to the tables, Awsfs.Metadata.Versions the version check under interleaved
--   requests, as a step relation on the states of the client.
-- - Awsfs.Objects (awsfs/physical.go, and sizingReader of awsfs/create.go): PhysicalStore over an S3
--   client, which is a record of requests and laws as well. Awsfs.Objects.Memory is an instance.
-- - Awsfs.Tree: the loops of RemoveAll and Rename over the reference (awsfs/remove.go,
--   awsfs/rename.go). The order in which Go ranges over a map is a parameter. A range over a map that
--   changes gives each key at most once if the key is deleted when it is met, and may or may not give
--   keys that are added; the theorems ask only that each old key below the directory is given.
-- - Awsfs.Server (awsfs/mkdir.go, awsfs/remove.go, awsfs/rename.go, awsfs/stat.go, awsfs/create.go,
--   awsfs/open.go): the methods of Server, as effects on the two services. Fresh ids (uuid.New) and
--   times (time.Now) are arguments, and io.Copy into the temporary file is a function that may fail.
-- - Awsfs.View: the specification. `view` reads the tables as a function from paths to entries, and
--   IsTree is the invariant of the tables: the reference lists the root, clean paths alone and the
--   parent of each path, and each path has an entry of its own. The children of Awsfs.View say what
--   each transaction does to the view; the children of Awsfs.Server say, for each method, what its
--   outcomes are on the view.
-- - Awsfs.FileReader (awsfs/open.go): the methods of FileReader, and in Copy what io.Copy reads of
--   one.
-- - Examples: tables and inputs on which the theorems are applied.
--
-- Numbers. Sizes and versions are natural numbers; the program counts bytes in an int64 and versions in
-- an int, which neither reaches the bound of. strings.TrimSpace cuts ASCII white space only, so header
-- values with other Unicode spaces at an end are outside the model.
--
-- Not modelled: Dir in webdav/file.go, which calls the file system of the host, Open and Create of
-- memFS, which panic, and copyProps, which nothing calls;
-- xmlValue and proppatchProps in webdav/xml.go, which copy tokens from a decoder to an encoder; main.go
-- and webdav/litmus_test_server.go; webdav/internal/xml is a copy of Go's encoding/xml. In awsfs: the
-- marshalling of items, which is the work of the AWS library, logging, the deletion of temporary files,
-- and the mutex of metadata.go, which orders the writes of one process only. In the handler: its
-- logger, and a file system or a lock system that is nil.
pub mod Base
pub mod Errors
pub mod Path
pub mod IfHeader
pub mod Lock
pub mod Awsfs
pub mod Examples
pub mod Handler
pub mod Answers
pub mod Property
pub mod Files
pub mod Props
pub mod MemFs
pub mod Requests
pub mod Responses
pub mod FileTree
pub mod LiveProps
