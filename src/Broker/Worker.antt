-- ===== src/Broker/Worker.antt =====
-- The ordered worker, the handles and the release lines: `BrokerWorker::run`, `BrokerHandle` and
-- cat-server/src/release.rs. A task is what its closure does to the session through the modem lines; the
-- release lines are duplicates of them.
use radio_cat_rs.Base.{
  ℕ, suc, ◌+◌, ◌%◌, ◌^◌, Bool, true, false, Option, none, some, List, [], ◌∷◌, ◌++◌, if◌then◌else◌,
  Result, ok, err,
}
use radio_cat_rs.Base.Bytes.{Bytes}
use radio_cat_rs.Client.{CatSession, CatClient}
use radio_cat_rs.Broker.{DispatchError, err_prefix, outcome_to_wire, dispatch}

-- `TaskFn`.
abbrev pub Task : Type 0 → Type 0
Task S = S → S × Result Bytes Bytes

pub data Work (S : Type 0) : Type 0 where
  wire : (payload : Bytes) → Work S
  task : (run : Task S) → Work S

pub record Job (S : Type 0) : Type 0 where
  pub client_id : ℕ
  pub request_id : ℕ
  pub work : Work S

abbrev pub task_reply : Result Bytes Bytes → Bytes
task_reply (ok bytes) = bytes
task_reply (err message) = err_prefix ++ message

abbrev pub run_task : {S : Type 0} → Task S → S → S × Bytes
run_task run s = let (s', result) = run s in (s', task_reply result)

-- The broker in its worker with the state that the handles share; `replies` are those that the worker
-- has sent, in order, with the numbers of their requests.
pub record Server (C Code S : Type 0) : Type 0 where
  pub client : CatClient C Code S
  pub queue : List (Job S)
  pub next_request_id : ℕ
  pub has_lines : Bool
  pub warned : Bool
  pub warnings : ℕ
  pub replies : List (ℕ × Bytes)

-- `build`.
abbrev pub build : {C Code S : Type 0} → CatClient C Code S → Bool → Server C Code S
build client has_lines = record {
  client = client;
  queue = [];
  next_request_id = 0;
  has_lines = has_lines;
  warned = false;
  warnings = 0;
  replies = [];
}

abbrev pub enqueue : {C Code S : Type 0} → ℕ → Work S → Server C Code S → Server C Code S
enqueue client_id work server = record server {
  queue =
      server.queue
      ++ (record { client_id = client_id; request_id = server.next_request_id; work = work } ∷ []);
  next_request_id = (server.next_request_id + 1) % 2 ^ 64;
}

abbrev pub submit_task : {C Code S : Type 0} → ℕ → Task S → Server C Code S → Server C Code S
submit_task client_id run server = enqueue client_id (task run) server

-- What the gate of the handle says, and a reply that is given without the queue.
unfoldable pub submit :
    {C Code S : Type 0}
    → Option Bytes
    → ℕ
    → Bytes
    → Server C Code S
    → Server C Code S × Option Bytes
submit (some reason) client_id payload server = (server, some (err_prefix ++ reason))
submit none client_id payload server = (enqueue client_id (wire payload) server, none)

-- `ReleaseLines::try_now`, without lines: warned of once, and only where there never were any.
abbrev pub warn : {C Code S : Type 0} → Server C Code S → Server C Code S
warn server =
    if server.warned
    then server
    else record server { warned = true; warnings = suc server.warnings }

unfoldable pub release_now_bypassing_queue :
    {C Code S : Type 0} → ℕ → Task S → Server C Code S → Server C Code S × Option Bytes
release_now_bypassing_queue client_id run server =
    if server.has_lines
    then (let (s, reply) = run_task run server.client.session in
        (record server { client = record (server.client) { session = s } }, some reply))
    else (submit_task client_id run (warn server), none)

abbrev pub answered : ℕ → Option Bytes → List (ℕ × Bytes)
answered id none = []
answered id (some reply) = (id, reply) ∷ []

module _ {C Code S E : Type 0} (same_code : Code → Code → Bool) (sessions : CatSession S E)
    (display : DispatchError E → Bytes) where
  -- One job: the reply, if there is one.
  unfoldable pub perform : Work S → CatClient C Code S → CatClient C Code S × Option Bytes
  perform (wire payload) c =
      let (c', dispatched) = dispatch same_code sessions payload c in
      (c', elim dispatched [ none ↦ none | some result ↦ some (outcome_to_wire display result) ])
  perform (task run) c =
      let (s, reply) = run_task run c.session in (record c { session = s }, some reply)

  -- One round of `BrokerWorker::run`, on what waits.
  unfoldable pub serve_queue : List (Job S) → Server C Code S → Server C Code S
  serve_queue [] server = record server { queue = [] }
  serve_queue (job ∷ queue) server =
      let (client, reply) = perform job.work server.client in
      record server {
        client = client;
        queue = queue;
        replies = server.replies ++ answered job.request_id reply;
      }

  abbrev pub serve : Server C Code S → Server C Code S
  serve server = serve_queue server.queue server
