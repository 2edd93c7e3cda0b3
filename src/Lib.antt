-- ===== src/Lib.antt =====
-- The core of the analysis-package backend: the store of published packages with its review and life
-- cycle, the users and tokens that act on it, the search index that follows it, the gate, the
-- registry of profile versions that the gate reads, and the proposals to change the standard.
--
-- Parts, and the files that model them:
--   Base        shared names; SQL tables as lists of rows in the order of their rowid (Base/Table),
--               methods that write and may raise (Base/Exec) with a small program logic for them
--               (Base/Exec/Hoare), texts with `strip`, `split`, `partition`, `int` and `str`
--               (Base/Text), the values of JSON and YAML (Base/Json)
--   Identity    src/ap_auth/identity.py, src/ap_auth/roles.py
--   Auth        src/ap_auth/store.py: one function per method, on the record AuthStore; Auth/Accounts
--               says what each writes, Auth/Calls and Auth/Tokens run any sequence of calls
--   Store       src/ap_store/store.py and the files of src/ap_store/blobstore.py: Store/Records has
--               the tables, Store/Effects the SQL statements, Store/Methods, Store/Listing and
--               Store/Settings the methods of PackageStore; Store/Pages puts the pages of its lists
--               together
--   Review      ReviewWorkflow of src/ap_review/workflow.py
--   Lifecycle   LifecycleWorkflow of src/ap_lifecycle/workflow.py
--   Requests    a client's calls of the store and the workflows, with time and caller, in any order
--   Changes     the abstract machine that the calls refine: one change of the store at a time, with
--               who may make it (Changes/ByStore, ByReview, ByLifecycle, BySettings)
--   History     the audit table as the history of the statuses
--   Index       src/ap_index/index_store.py, src/ap_manager_bot/scoping.py
--   Corpus      src/ap_index/reindex.py, `redact_package` of src/ap_redact/redact.py, and the routes
--               of src/ap_api and src/ap_console that change a package and then the index
--   Gate        src/ap_gate/checks/registry.py, types.py, qa.py, src/ap_gate/report/model.py;
--               Gate/Paths is src/ap_gate/checks/pathsafe.py, Gate/Pinned, Gate/Declared and
--               Gate/Layout the checks of inputs.py, engines.py, outputs.py, layout.py and
--               `check_labels_paths` of labels.py, all in src/ap_gate/checks; Gate/Labels is
--               `check_reason_codes_known` of the last
--   Registry    src/ap_registry/profile_registry.py, with Registry/Versions for the order of its
--               versions and `_bump_minor`; Registry/Loads is src/ap_gate/profiles.py with its
--               cache, Registry/Calls any writes and loads of the two
--   Proposals   src/ap_proposals/store.py, `decide` and `record_dry_run` of
--               src/ap_proposals/workflow.py; Proposals/Apply is the declarative part of
--               src/ap_proposals/apply.py over the registry
--   Guarantees  what holds after any run of requests, and of single decisions (Guarantees/Decisions)
--   Examples    runs at concrete inputs
--
-- State is passed explicitly: a method is a function from the store to a result and the store, what
-- was written before a raise stays written, and a `with conn:` block that raises rolls back. The
-- requests of a run come one after another, as the stores' locks order the methods; two workflows
-- that interleave between a read and the compare-and-swap of `set_status` are modelled only as two
-- calls of that method. Texts of error messages are left out: each `raise` is a constructor. Times are numbers;
-- those of the user store are in microseconds. The loops are structural; only the printing of a number
-- takes fuel, one more than the number, which is enough since each digit divides it by ten.
--
-- The registry's root has no symbolic links and is written by this code alone; what a crash leaves
-- between two of its writes is not modelled, each raise is. The version a manifest declares is
-- walked as a path, as the code joins it unchecked; one that leaves the root is read as no
-- directory, and a profile's own directory has none of the files that the gate reads. Numbers in texts have ASCII digits, and fewer than the 4,300 that Python's `int` takes.
-- A check on declared files sees a file system without symbolic links and raises (none) where the
-- manifest's values have types that the code does not expect.
--
-- Parameters: the sha256 of a blob, `load_manifest` and `make_blob` as what they make of a directory,
-- the gate on extracted bytes, hashing of passwords and tokens, `str` and `int` of numbers, SQLite's
-- full-text match, its bm25 and the order in which a list's query answers rows, and what the redaction reads off a package; for the
-- proposals the diff schemas, the two apply steps (the declarative one is also modelled) and the dry
-- run; for the registry the repository's `profiles/` tree; for the checks SHA-256 of a file,
-- `json.loads`, and Python's prints of values. A package's bytes are opaque. The gate
-- on extracted bytes is one function of them: that the profile registry or the environment, which
-- the rerun reads too, may change between two requests is not modelled.
--
-- Not modelled: the statistics of the store, archives, the checks of the gate on manifest fields and
-- the other ones on the rows of label files, the export of a spec, the planner bot, chat, MCP, HTTP and HTML.
pub mod Base
pub mod Identity
pub mod Auth
pub mod Store
pub mod Review
pub mod Lifecycle
pub mod Changes
pub mod History
pub mod Requests
pub mod Index
pub mod Corpus
pub mod Gate
pub mod Registry
pub mod Proposals
pub mod Guarantees
pub mod Examples
