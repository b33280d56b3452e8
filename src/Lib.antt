-- ===== src/Lib.antt =====
-- The deployment client of compass4nfv, deploy/client.py and the REST client deploy/restful.py that it
-- drives, and the programs around it that check, convert and fetch what a deployment needs.
--
-- A deployment logs in to the compass server, maps machines and subnets, makes a cluster, hands it
-- the hosts, their networks, the OS and the package configuration and the roles, starts the
-- deployment, and polls the server until the cluster is installed. `deploy` of deploy/client.py calls
-- the methods of `CompassClient` in that order, and each of these calls methods of `Client`.
--
-- Base, Result, Text: lists, dicts, numbers, exceptions as results, and the methods of Python's `str`
--   that the code uses. A text is a list of code points. A dict is an association list with one entry
--   for each key, in the order of insertion.
-- Value: what JSON and YAML decode to, with Python's truth, indexing and iteration; a value of the
--   wrong kind gives the exception that Python raises.
-- Effects: actions on a state, and the environment. Each request, sleep, reading of the clock and
--   command is an event of the trace; the environment answers as a function of the trace, newest
--   event first. `IsClock` says that time does not run backwards and that a sleep lasts. Effects/Sample
--   is an environment to run the code in.
-- Restful: `class Client` of deploy/restful.py. Its state is the session; a method of the class is the
--   definition of the same name, grouped by resource (Switches, Machines, Clusters and so on).
-- Compass: `class CompassClient` of deploy/client.py and its state. Config holds the options, Login
--   `login`, `get_machines`, `list_clusters` and `get_adapter`, and Subnets, Cluster, Roles,
--   Networking, OsConfig, Package, Progress and Dashboard the methods of those names. Deploy holds `deploy`,
--   `redeploy` and `main`.
-- ConfigParse: deploy/config_parse.py, which runs before the client and writes the options that it reads.
--   The file itself holds the decorated functions and the variables; Shell the commands, files and
--   random numbers, and Export the three exports and the script. `wrapter` is `joined` and `decorator`.
-- CheckValid: util/check_valid.py, which checks the two configuration files before anything else runs.
--   Regex is the part of Python's `re` that its two patterns need.
-- KeystoneEndpoint: the ansible module deploy/adapters/ansible/ansible_modules/keystone_endpoint.py,
--   which the roles call when the cluster is installed. The library shade is a parameter,
--   of which nothing is assumed.
-- BuildParser: build/parser.py, which fetches the packages of a build by shell commands.
-- InsPackages: repo/gen_ins_pkg_script.py and repo/constants.py, which gather the packages that the
--   ansible roles install. InsPackages/Script writes the scripts that download them.
-- StatusCallback: deploy/ansible_plugins/callback/status_callback.py, which ansible calls at the end of a
--   playbook and which tells the server the state of each host. Hooks is the class `CallbackModule`.
-- JumpHost: the scripts deploy/reset_compute.py, deploy/bonding.py, deploy/rename_nics.py and
--   deploy/setup_vnic.py. The values that are put into a command are the arguments of its format.
-- SetupNetwork: setup_networks.py (Commands) and check_network.py (Check) of the role setup-k8s-network,
--   deploy/adapters/ansible/kubernetes/roles/setup-k8s-network/files/setup_networks.
-- YamlLookup: deploy/ansible_plugins/lookup/yamlfile.py. PlaybookDone:
--   deploy/ansible_plugins/callback/playbook_done.py. Kickstarts: migrate_ks.py, the trigger of cobbler under
--   deploy/adapters/cobbler. Logging: deploy/log.py and the log.py beside check_network.py.
--
-- Texts of exceptions are kept as the source's format strings, without the values. The clock counts
-- whole seconds. The two `while` loops run on fuel, one round for each second of the timeout and one
-- more: a round sleeps for 8 or 10 seconds, so the fuel outlasts the timeout.
--
-- The matcher of Regex, the loops over lists and the loop of `mac_generator` are structural recursion.
-- In a dict that a file holds the entries stand in the order in which Python iterates over them; the
-- order of other hash tables is a parameter.
--
-- The libraries requests, netaddr, re (at patterns of the configuration), yaml, multiprocessing, shade
-- and Cheetah, the environment variables, directories, random numbers and the order of Python's hash
-- tables are parameters: the fields of `Environment`, or arguments of the definitions that use them.
-- So are the client of the package compass that playbook_done.py uses, and the api of cobbler. Files that a
-- program writes can be written, where opening them is no parameter. Not modelled: the lines that are logged
-- and what goes to the terminal (except the messages of util/check_valid.py), the ansible roles, which are
-- yaml and templates, the shell launchers, and vendored or generated files.
pub mod Base
pub mod Result
pub mod Value
pub mod Text
pub mod Effects
pub mod Restful
pub mod Compass
pub mod KeystoneEndpoint
pub mod Regex
pub mod CheckValid
pub mod ConfigParse
pub mod InsPackages
pub mod BuildParser
pub mod StatusCallback
pub mod JumpHost
pub mod SetupNetwork
pub mod YamlLookup
pub mod PlaybookDone
pub mod Kickstarts
pub mod Logging
