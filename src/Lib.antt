-- ===== src/Lib.antt =====
-- A model of the Python programs of the OpenStack blueprint: the checks and tools of hack/ that
-- decide whether the blueprint can be installed and upgraded, and the emitter that reports usage and
-- health from an installed one.
--
-- Dag: hack/validate-component-dag.py. Dag.Graph has the declared components (`comps`) and the waits
-- between them, Dag.Visit the coloured search (`visit`, with the dicts and the stack as arguments),
-- Dag the closure check, the kinds, the charts and the script as a whole. `visit` runs on fuel, one
-- more than there are components; each descent paints a white component grey, so this is enough.
-- The parameter `helm` stands for a component's chart and for `helm template` on it.
--
-- Revendor: hack/revendor.py. Revendor has `walk`, `get`, `put` and `merge`, where the mapping that
-- the script mutates is passed on, and Revendor.Command the command with --selftest and --apply.
-- `pull` stands for `helm pull` and the parse of the chart's values, `vendored` for the values file of
-- the repository. A document is a tree of mappings with text keys, lists and scalars.
--
-- Emitter: blueprints/openstack/chart/files/contract-emitter.py. Emitter.Effects has the program's
-- state (requests sent, warnings, rows) and its statements, which may raise; Emitter.Config the
-- environment, the intervals, the times and the record ids; Emitter.Keystone `keystone_auth` and
-- `endpoint_url`; Emitter.Usage `collect_usage`; Emitter.Health `probe` and `collect_health`;
-- Emitter.Store the requests to ClickHouse; Emitter.Main `main`. The servers are a function of the
-- requests sent so far, the JSON parser, the hash and the readings of the clock are parameters, and
-- the query of a URL is kept as its parameters. `int` reads decimal digits only, and the dates are
-- right up to the year 9999. An identifier that is no text counts as a TypeError. What urllib makes of
-- a URL that is no text is a parameter.
--
-- Deadlock: hack/validate-readiness-deadlock.py. Deadlock.Umbrella has `read_umbrella` from the parsed
-- values on, Deadlock.Gate `read_gate` on what its regular expressions find, Deadlock.Partition
-- `check_partition` on the lines that helm prints, Deadlock.Owners `resolve`, Deadlock.Waits
-- `build_graph`, whose two dicts are one list of edges with reasons, Deadlock.Components `sccs_of` and
-- `cycles_of`, Deadlock.Shortest `witness`, and Deadlock.Verdict `main` with its exit status. `witness`
-- is a breadth-first search on fuel: each member enters the queue once, so one more than there are
-- members is enough, and the way back has at most an entry of `prev` for each step. The loop of
-- `sccs_of` enters and leaves each node once, so one more than twice the number of nodes is enough.
-- Deadlock.Collect has `collect` with `entrypoint_waits`; the documents that helm prints and `json.loads`
-- are parameters. The printed report is not modelled.
--
-- Preflight: hack/preflight-refs.py. Preflight.Registry has the requests to registries and the cache of
-- media types, Preflight.Pairing the windows of lines around a reference, Preflight.Scan `scan` over a
-- tree of directories, and Preflight.Verdict `main`. The registries are a function of the request, since
-- a registry's answer does not change within a run; the regular expressions but MUTABLE, the JSON
-- parser and the directory at a path are parameters. A token is a text, a tag is ASCII, and what is
-- printed is left out.
--
-- Series: hack/series-scope.py, up to the record that its report is printed from. IMG and SERIES, and the
-- values files at a root, are parameters.
--
-- ConfigClosure: hack/validate-component-config-closure.py. ConfigClosure.Lines has the tables of
-- backends, the regular expressions on a line and `notifications_live`, ConfigClosure.Reach `closure`,
-- ConfigClosure.Waits the waits of init containers, ConfigClosure.Backends the backends that
-- configuration files name, ConfigClosure.Report `report` and the counts, and ConfigClosure the script
-- as a whole. The files, the charts with helm, and base64 are parameters. `closure` runs on fuel: a
-- component's dependencies enter the stack once, so two more than their number is enough.
-- ConfigClosure.Needs says what a document needs, and ConfigClosure.Met when the need is met.
--
-- Images: tools/collect-images.py, where a file's parsed documents are a parameter.
--
-- Prune: hack/validate-upgrade-does-not-prune.py. Prune.States has the cluster states and the tables of
-- what they decide, Prune.Templates the searches in the templates' text, and Prune the probes, the
-- comparisons and the exit status. `helm template` on the probe chart is a parameter. Prune.Serves
-- says what a cluster state serves.
--
-- Prelude has what these share: tests, lists, texts, sorting, dicts as lists of entries in the order
-- of insertion, YAML and JSON documents, and results of code that may raise. Whole
-- numbers are natural numbers, since none of the code counts below zero, and a float is the text that
-- Python shows it as; `float` and the sum of floats are parameters.
--
-- The other scripts of hack/, the Helm templates and the shell scripts are not modelled.
-- Samples modules hold the runs at which the theorems are applied.
pub mod Prelude
pub mod ConfigClosure
pub mod Dag
pub mod Revendor
pub mod Emitter
pub mod Deadlock
pub mod Preflight
pub mod Series
pub mod Images
pub mod Prune
