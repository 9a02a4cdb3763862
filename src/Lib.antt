-- ===== src/Lib.antt =====
-- The verification library of gitgit: a Git browser that is a desktop application, and a helper
-- process for an editor extension. Both run Git as a subprocess and share internal/app.
--
-- The parts, and the files that model them:
--
-- - Text: Go's strings and byte slices, as lists of bytes, with the functions of the standard
--   library that the program calls. Assoc: Go's maps with string keys. Path: the lexical functions
--   of path/filepath on Unix; Path.Cleaned is about the elements of a cleaned path.
-- - Apperr (internal/apperr/error.go): the errors of the modelled code. A message keeps its format
--   and its arguments; formatting belongs to fmt. `Result` is a value or an error.
-- - Git (internal/gitexec/runner.go): one process of Git is an invocation. Git is an oracle, a
--   function from the events so far and the invocation to its answer, so every theorem holds
--   whatever Git answers. `Exec` is an action that adds events and ends in a value or an error.
--   Repository has OpenRepository, Version and RunWithEnvLimit.
-- - Worktree (internal/app/worktree.go): Listing (parseWorktreeList), Mutation (Add with
--   syncBeforeAdd, Move, Remove), Sparse (List, the state of a sparse checkout, directories) and
--   Sparse.Changes (SparseSet, SparseExpand, SparseContract, SparseDisable, protectDirtyPaths).
-- - Search (internal/app/search.go): Options (validateSearchOptions, normalizedSearchPredicates)
--   and Expression (evaluateSearchExpression). The evaluator keeps two stacks; an access to an
--   empty stack, which panics in Go, is a value of the model. Expression.Grammar has the trees and
--   their values, Expression.Balance reads a tree from balanced conditions. Changes has the changed
--   files of a batch of commits (ReadCommitFileChangesBatch), matchFileChange and changedLines,
--   Commits has listCommits, and Patterns has globExpression and the compilation of the predicates
--   (what regexp.Compile and regexp.QuoteMeta do is a parameter). Hits, Matching and Run are
--   SearchWithProgress: what a commit hits, where it matches, and the loops over the batches. The
--   calls of onProgress are kept in a list, and what ctx.Err() gives when a commit's turn comes is
--   a parameter; a search that ends in an error gives no list.
-- - Helper (internal/vscodehelper): the JSON-RPC helper. Rpc has the errors of a request, the
--   record `Host` of all that a request looks at outside the program (Git, the file system, the
--   environment, UTF-8), and `Serve`, an action that adds events of Git and ends in an answer or
--   in an RPC error. Params are requests as JSON decodes them; decoding is a parameter. The
--   handlers of methods.go and search_diff.go are Refs (refs.list), History and Handlers
--   (history.file, revision.content, blame.lines, diff.file), with Blame (parseLinePorcelain),
--   FileDiff (parseRawFileChanges, selectExactFileDiff), Ranges (parseUnifiedRanges), Revision
--   (resolveRevision, readRevisionBlob), Paths (validateRelativePath), Repository (openRepository)
--   and Progress (progressReporter). SearchRun makes the options of a search of its params, and
--   SearchRun.Results is searchRun with the search of Search.Run. Of server.go, Discovery has
--   repository.discover and the search for Git, Web the addresses of remotes, where url.Parse is a
--   parameter, Dispatch `handle` and `initialize`, and Server is `Serve` as steps: a line is read,
--   a running request replies, a request ends, every request is cancelled, in any order.
-- - Desktop (internal/desktop/cache.go, operations.go and the search part of service.go): Fifo is
--   a map with its list of keys and a limit, Cache has the caches of the repositories, Operations
--   the contexts of the operations, of the switch of the repository and of the search. Rewrite
--   (internal/desktop/commit_rewrite.go) has the checks of a rewrite and its trailers; whether a
--   date is RFC 3339 is a parameter.
--
-- Bounds: a loop that moves an index by more than one runs on fuel, the length of what it goes
-- over: patchHeaderStarts (Helper.FileDiff), globExpression (Search.Patterns) and the batches of a
-- search (Search.Run). Helper.FileDiff.Headers, Search.Patterns.Fuel and Search.Run.Loop show that
-- this is enough. The digits of a number n take at most n + 1 rounds (Text.Numbers), each of which
-- leaves a smaller number. All other loops are structural. Ids and generations of Operations are
-- 64-bit integers that wrap around; the theorems on runs are for fewer than 2^64 steps. The line
-- numbers of a diff are Go ints that wrap around too (Helper.Int64). Helper.Ranges.Natural is the
-- same scan in natural numbers, Helper.Ranges.Appended and Helper.Ranges.Bounded show that the two
-- agree while no line number leaves the range of an int, and Helper.Ranges.Parsed carries over what
-- holds of the scan in natural numbers. The counts of a hunk header are not read by the code. A numeral
-- that strconv.Atoi refuses is 0 in the counts of syncBeforeAdd, and an error in a hunk header.
--
-- The caches take a critical section as one step, and so do the operations, whose cancel calls
-- come after the lock is released and touch no field of the service. A step of Server is a
-- critical section too, or one reply.
--
-- Not modelled: how regular expressions match, the JSON encoding, the response sink of the helper,
-- the notifications of a search that ends in an error, the steps of a rewrite of commits, the
-- changes of worktrees and the reads of history in internal/desktop, the stores on disk, and the
-- user interfaces.
mod Prelude
pub mod Text
pub mod Assoc
pub mod Apperr
pub mod Path
pub mod Git
pub mod Worktree
pub mod Search
pub mod Helper
pub mod Desktop
