-- ===== src/Lib.antt =====
-- Nautobot with the SHMS plugins and its VPN control plane: a model of the parts that carry logic of
-- their own, and what is shown of them.
--
-- The parts and how they interact. Remote workers register at the VPN control API
-- (vpn/VPN_Control_API/app.py), report by heartbeats and are assigned queues there; the API keeps
-- them in one JSON file. The queues are those that a Nautobot job
-- (jobs/vpn_queue_reconciliation.py) makes for each tenant and assigns to the jobs that need a
-- tenant's VPN; the names that the job gives have to be names that the API accepts. The secrets of
-- the containers and apps come from the environment or from Vault
-- (plugins/shms-secret-resolver/shms_secret_resolver/resolver.py). Apart from these, an app tracks
-- Cisco orders: it fetches snapshots and keeps one row for each line
-- (plugins/nautobot-app-nbcot/nbcot/cisco/sync.py), and another plans the cables between devices in
-- batches of rows, which are checked, approved and executed
-- (plugins/nautobot-app-nautobot-connectivity-matrix).
--
-- Base: lists, texts, dictionaries and sorting. A text is the list of its code points, `dict` an
-- association list in insertion order, `sorted` a stable insertion sort.
--
-- Workers: vpn/VPN_Control_API/app.py, the remote-worker registry. Workers/Queues has
-- `_tenant_slug_from_queue_name` and `normalize_remote_queue_names`; Workers/Registry has
-- `load_remote_worker_state`, `build_remote_worker_status`, `upsert_remote_worker`,
-- `set_remote_worker_assignment` and `list_remote_workers` as functions from the state file to an
-- answer and a state file; Workers/Endpoints has the endpoints with the API key, and runs of them.
-- An `HTTPException` is a value (Workers/Errors), and so is the answer 500 where the file holds
-- JSON that is no object. The file is written with its workers in the order of their identifiers.
-- Times are microseconds; a call reads the clock where the source does, and the readings are
-- arguments.
--
-- Slots: vpn/VPN_Control_API/app.py, the VPN slots. Slots/Context has `_slot_slug` and `slot_context`,
-- Slots/Profile `resolve_vpn_profile`, with the metadata of Vault as an argument, and `slot_state`,
-- Slots/Host the file of the host slots, Slots/Environment `slot_env`, and Slots/Requests the endpoints
-- start, stop, restart and scale. What docker and the VPN clients report and do is a record of
-- operations on a state of the node (Slots/Requests).
--
-- Reconcile: jobs/vpn_queue_reconciliation.py. Reconcile/Names has the queue names,
-- Reconcile/Database the three tables of Nautobot with the queries that the job makes,
-- Reconcile/Steps the private methods of the job, Reconcile/Run its `run`. Names stand for primary
-- keys.
--
-- Secrets: plugins/shms-secret-resolver/shms_secret_resolver/resolver.py. Secrets/Json has decoded
-- JSON, Secrets/Vault the reading of a secret over a session that is a parameter, Secrets/Resolver
-- `resolve_value`, `resolve_mapping`, `populate_env_from_vault` and what calls them. An exception is
-- `raised`.
--
-- Orders: plugins/nautobot-app-nbcot/nbcot/cisco/sync.py. Orders/Lines has `_sync_lines` on the
-- table of an order's lines, whose `validated_save` may refuse a row, Orders/Changes
-- `_record_changes`, and Orders/Sync `sync_order_by_number` on the table of orders, from the
-- normalised snapshot on. Orders/Numbers has the line numbers of nbcot/cisco/line_items.py, and
-- Orders/Serials nbcot/cisco/serials.py, of the same app. The fetch of an order and the notification
-- are not modelled.
--
-- Matrix: plugins/nautobot-app-nautobot-connectivity-matrix/nautobot_connectivity_matrix/.
-- Matrix/Rows has the rows of models.py and their swap, Matrix/Validation services/validation.py
-- and services/interface_options.py, Matrix/Colors and Matrix/Order the colours and the order of
-- rows, Matrix/Batch the methods that check and execute a row and the actions of a batch in
-- api/views.py, Matrix/Actions all these actions as steps on one state, over a state of cables
-- whose creation is a parameter; a row reads the new cable at its interfaces afterwards.
-- Matrix/Interfaces has services/interface_finalization.py: the names and the types of interfaces,
-- and the interfaces of a device type, Matrix/Materialize services/materialization.py over
-- operations of Nautobot that are a record. A batch is written by one request at a time, and saves
-- succeed.
--
-- Inventory: plugins/nautobot-app-vpn-manager/nautobot_vpn_manager/worker_inventory.py. Inventory/Drift
-- compares the queues assigned to a worker with those that it has, Inventory/Live asks the broker for
-- them, Inventory/Filters has the filters of the list of workers.
--
-- Bounds. No definition runs on fuel: every loop of the source goes over a list or a number of attempts,
-- and is recursion on it. Python's integers are unbounded; ages are natural numbers, as the source takes their maximum
-- with 0.
--
-- Not modelled: log lines; the files and processes behind the calls; `str.lower`, which is a
-- parameter; time-outs of requests; `VaultClientConfig.from_env`; what docker reports of a VPN slot;
-- the rest of the app for orders; of the matrix the import and export of files, the free edit of a row,
-- and the interfaces of modules; the app for the software lifecycle.
pub mod Base
pub mod Workers
pub mod Reconcile
pub mod Secrets
pub mod Orders
pub mod Matrix
pub mod Slots
pub mod Inventory
