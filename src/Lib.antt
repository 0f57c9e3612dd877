-- ===== src/Lib.antt =====
-- Verification library for porpulsion, an agent that deploys workloads to the Kubernetes clusters of
-- its peers. Paths are from the root of the repository.
--
-- Parts, and the files that model them:
--   * Notifications: the list under the bell icon, porpulsion/notifications.py with
--     porpulsion/routes/notifications.py, capped at 50.
--   * LogBuffer: the ring of log lines, porpulsion/log_buffer.py with porpulsion/routes/logs.py.
--   * Channel: one WebSocket channel, `PeerChannel` of porpulsion/channel.py. Its state is a record; a
--     step returns a result and the new state, and appends to `outbox` what it hands to the socket, the
--     thread pool and the notifications. Whether the socket takes what is sent is an argument of the
--     step. Channel/Dispatch has `_dispatch` and the receive loops, over the list of what `recv` gave;
--     Channel/Answers has the jobs of the pool, which end in any order.
--   * Reconnect: `connect_and_maintain` of porpulsion/channel.py over the list of its rounds.
--   * Channels: the dict of the channels by peer, with the objects that it refers to, porpulsion/state.py
--     and porpulsion/channel.py.
--   * Tls: fingerprints and challenges, porpulsion/tls.py. The `cryptography` package is a record of
--     functions that the definitions take.
--   * Peers: the dict of peers and what was last written of it to its Secret: the accepted hello
--     (Peers/Hello), invites (Peers/Connect), the messages of a peer (Peers/Messages), all as steps
--     (Peers/Steps), and the restart (Peers/Persistence). Peers/Removal has the end of a peering with its
--     workloads and its channel.
--   * Handshake: the hello exchange of porpulsion/channel.py from both sides, `_connect` and
--     `attach_inbound`, with the frames that follow it.
--   * Auth: porpulsion/routes/auth.py, porpulsion/csrf.py and the guards of porpulsion/agent.py: the
--     rate limiter (Auth/RateLimit), the accounts (Auth/Users), the login (Auth/Login), the guard of the
--     API (Auth/Guard) and the form tokens (Auth/Csrf). Times are whole milliseconds.
--   * Policy: the checks of porpulsion/routes/workloads.py before a workload is created: quantities
--     (Policy/Quantity), images (Policy/Images) and quota (Policy/Quota). Python's floats are a record of
--     operations that the definitions take; an error message is a constructor with the values it shows.
--     Policy/Reading says what quantities mean.
--   * Workloads: the names and ExecutingApp resources of porpulsion/k8s/store.py (Workloads/Naming,
--     Workloads/Cluster), and the submission, approval, rejection and update of workloads
--     (Workloads/Admission). The Kubernetes API is a dict of resources and flags whether a call of it
--     succeeds. Restarts, scaling and the patches of configs and secrets by a peer change no field of a
--     resource that is modelled here.
--   * Executor: porpulsion/k8s/executor.py. A run of `run_workload` (Executor/Deploy, with the storage
--     claims in Executor/Storage) takes the API's answers as a record and returns what it wrote and
--     reported; Executor/Watch has the wait for the deployment and the registry of stop events, over
--     steps of the threads; Executor/Sessions and Executor/Relay have the shells, with the queues of
--     porpulsion/channel_handlers.py, into which pushes arrive in any order. The wait runs over the 150
--     rounds of the source.
--   * Kopf: porpulsion/k8s/kopf_handlers.py, the handlers of the custom resources. Kopf calls a handler
--     again while it raises a TemporaryError: Kopf/Retries runs over the list of the attempts.
--   * Settings: porpulsion/routes/settings.py, over the settings of porpulsion/models.py.
--   * Tunnels: porpulsion/routes/tunnels.py, porpulsion/k8s/tunnel.py and `handle_proxy_request` of
--     porpulsion/channel_handlers.py: host names (Tunnels/Hosts), caches (Tunnels/Cache), and who gets
--     through with which headers (Tunnels/Proxy, Tunnels/Access).
--   * Apps: the resources of the apps, submitted and executing, of porpulsion/k8s/store.py with the routes
--     of porpulsion/routes/workloads.py: the data of their Secrets (Apps/Volumes), also through the
--     peer (Apps/Forwarding), the submission of an
--     app over the specs by name (Apps/Submission), the memory of whether a CRD is there (Apps/Crd), the
--     logs, pods, commands and restarts that a submitted app gets from its peer through
--     porpulsion/channel_handlers.py (Apps/Operations), and the apps without a login (Apps/ProxyAuth).
--     Base64 and the operations of the executor are records of functions.
--   * Registry: the pulling of images through the agent, porpulsion/routes/image_proxy.py and
--     `handle_image_proxy_request` of porpulsion/channel_handlers.py. The HTTP client is a function of the
--     request that is sent.
--
-- Prelude has the shared names: numbers, text, dicts as association lists in insertion order, lists,
-- JSON values and a state and error monad.
--
-- Conventions: a new id, the time and a random token are arguments. An exception is the `err` of a
-- result or, where only one is possible, `none`. A loop that waits for events runs over the list of
-- the events so far, so that no fuel is needed.
--
-- Not modelled: sockets and threads as such, the Kubernetes API, the HTML pages, the OpenAPI documents,
-- the set-up of the registry's user (porpulsion/k8s/registry_proxy.py), the wrapping of specs by the
-- schema of the CRD (porpulsion/models.py), and the scaling and the detail page of an app.
pub mod Apps
pub mod Auth
pub mod Channel
pub mod Channels
pub mod Executor
pub mod Handshake
pub mod Kopf
pub mod LogBuffer
pub mod Notifications
pub mod Peers
pub mod Policy
pub mod Prelude
pub mod Reconnect
pub mod Registry
pub mod Settings
pub mod Tls
pub mod Tunnels
pub mod Workloads
