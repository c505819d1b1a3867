-- ===== src/Lib.antt =====
-- SlopSentinel: a linter that looks for traces of generated code. A run (audit.py) finds the files
-- of a project (scanner.py), runs rules over them under a configuration (engine/detection.py,
-- config.py), drops what a comment suppresses (suppressions.py) or a baseline knows (baseline.py),
-- keeps results per file in a cache (cache.py), scores the rest (engine/scoring.py) and records the
-- score (history.py); a diff (gitdiff.py) restricts it to changed lines, and a watcher (watch.py)
-- repeats it. What a rule finds is fixed by edits of lines (autofix.py), comments that look
-- generated are taken out of a text (deslop.py), and a language server (lsp.py) runs the engine
-- over the documents of an editor. In a GitHub action, the violations become comments of a pull
-- request (action_github.py).
--
-- The files, with the parts of slopsentinel they model (paths are below src/slopsentinel):
--   Base          Python's numbers, texts, lists and sorting, as far as the program uses them
--   Types, Paths  engine/types.py, rules/base.py and utils.py; a path is the list of its parts
--   Json, Dict    the values of json and tomllib, and dictionaries with text keys
--   Scoring       engine/scoring.py: penalties, points, densities, dominant models, confidence
--   Config        config.py: rule groups, enabled rules (Enabled), validation of the table (Parse)
--   Suppressions  suppressions.py: the directives, matched as the regular expressions do
--   Detection     engine/detection.py: the loop over rules and files, with the cache as an
--                 interface of operations and laws, which Cache.Laws fills
--   Baseline      baseline.py: build, filter, load and save
--   Cache         cache.py: the store, its file (Persist), and a violation as JSON (Serial)
--   History       history.py: entries, their file, and the append
--   Audit         audit.py: audit_files, from the cache that it opens to the history that it writes,
--                 over a disk of JSON files
--   Registry      rules/registry.py: registration, and the views behind lru_cache
--   CodeLines     rules/utils.py: comment lines, code lines and runs of numbers
--   GitDiff       gitdiff.py: the lines that a diff adds
--   Languages     languages/registry.py: suffixes and languages
--   Scanner       scanner.py: discovery of files and the number of workers; path_is_ignored
--   Watch         watch.py: the paths that wait for a quiet period, and those to watch (Paths)
--   Patterns      patterns.py: the regular expressions as tests of a line
--   Autofix       autofix.py: the planners for comments (Autofix, Blocks) and for Python (Imports,
--                 Boolean, Docstring, Credential, Constant), the union of their edits (Merge) and the
--                 text that is left (Plan)
--   Deslop        deslop.py: the text without the comments that look generated
--   Lsp           lsp.py: diagnostics and hovers (Ranges), the messages and their answers (Server)
--   Review        action_github.py, and the comment of action_markdown.py: the comments of a pull
--                 request, their markers (Markers), and the requests with their retries
--
-- State is passed explicitly: an operation that changes an object returns the object after it, and
-- the registry's reachable states are an inductive relation. Exceptions are values of a result type
-- of each part. All loops are structural recursion on the list or the tree that they run over, or
-- on the number of attempts or pages that are left, so no fuel is needed; the decimal of a number
-- has the number itself as its fuel (Review.Decimal). A set is a list of
-- which only the members matter.
--
-- Parameters, with what is assumed of them: floats (the signs of differences and products), rules
-- (a metadata record and two checks), SHA-256 (a digest is no empty text, and those of the texts
-- read do not collide), the file system's resolve (the project root resolves), git, fnmatch, int()
-- and str() of values that are not of the type themselves, and the clock (infinity is positive).
-- For the fixes, what ast and tokenize return of a text is a value of the type in Autofix.Syntax;
-- for the language server, the reading of a URI, the engine on one text and the examples of the
-- rules are functions; for the comments, GitHub is a service with a state of its own, and SHA-1 a
-- function. Case mappings, the letters of a pattern and `\w` are those of ASCII, and so is `\d` in
-- a diff.
--
-- Not modelled: the rules themselves, syntax trees, plugins, reporters, the command line, the
-- inputs and the summary of the GitHub action, calls of git, the reading, writing and backup of a
-- fixed file and its unified diff, the framing of the language server's messages, and text output
-- of the parts above.
pub mod Audit
pub mod Autofix
pub mod Base
pub mod Baseline
pub mod Cache
pub mod CodeLines
pub mod Config
pub mod Deslop
pub mod Detection
pub mod Dict
pub mod GitDiff
pub mod History
pub mod Json
pub mod Languages
pub mod Lsp
pub mod Paths
pub mod Patterns
pub mod Registry
pub mod Review
pub mod Scanner
pub mod Scoring
pub mod Suppressions
pub mod Types
pub mod Watch
