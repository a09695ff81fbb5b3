-- ===== src/Workers/Endpoints.antt =====
-- The remote-worker endpoints of vpn/VPN_Control_API/app.py, and a run of requests. FastAPI has
-- parsed and validated the bodies.
pub mod Safety
pub mod Restart
use nautobot_docker_compose.Base.{
  ℕ, ◌≡◌, Bool, true, false, Option, none, some, List, [], ◌∷◌, ◌==◌, nat_eq, list_eq,
  if◌then◌else◌,
}
use nautobot_docker_compose.Base.Text.{Text}
use nautobot_docker_compose.Base.Dict.{Dict}
use nautobot_docker_compose.Workers.Errors.{Result, ok, err, forbidden}
use nautobot_docker_compose.Workers.Registry.{
  StateFile, RemoteWorkerStatus, HeartbeatRequest, upsert_remote_worker,
  set_remote_worker_assignment,
}

pub record RegisterRequest : Type 0 where
  pub worker_id : Text
  pub hostname : Text
  pub software_version : Option Text
  pub platform : Option Text
  pub capabilities : Dict Text
  pub advertised_queues : List Text
  pub current_queues : List Text
  pub status : Text

pub data Request : Type 0 where
  register : RegisterRequest → Request
  heartbeat : Text → HeartbeatRequest → Request
  assignment : Text → List Text → Request

-- A registration always gives every field but the version and the platform.
abbrev pub registration : RegisterRequest → HeartbeatRequest
registration p = record {
  hostname = some p.hostname;
  software_version = p.software_version;
  platform = p.platform;
  capabilities = some p.capabilities;
  advertised_queues = some p.advertised_queues;
  current_queues = some p.current_queues;
  status = some p.status;
}

-- `require_api_key`: `api_key` is the header, `configured` the `API_KEY` of the process.
unfoldable pub is_allowed : Option Text → Option Text → Bool
is_allowed none api_key = true
is_allowed (some key) none = false
is_allowed (some key) (some api_key) = api_key == key

-- A request as it arrives: its header, and the two clock readings that its handler makes.
pub record Call : Type 0 where
  pub api_key : Option Text
  pub now : ℕ
  pub later : ℕ
  pub request : Request

module _ (configured : Option Text) (stale_seconds : ℕ) where
  dispatch : ℕ → ℕ → Request → StateFile → Result RemoteWorkerStatus × StateFile
  dispatch now later (register p) file =
      upsert_remote_worker stale_seconds now later p.worker_id (registration p) file
  dispatch now later (heartbeat worker_id q) file =
      upsert_remote_worker stale_seconds now later worker_id q file
  dispatch now later (assignment worker_id desired_queues) file =
      set_remote_worker_assignment stale_seconds now later worker_id desired_queues file

  unfoldable pub handle : Call → StateFile → Result RemoteWorkerStatus × StateFile
  unfolding dispatch is_allowed
  handle c file =
      if is_allowed configured c.api_key
      then dispatch c.now c.later c.request file
      else (err forbidden, file)

  -- The file after a run of calls, one after another.
  unfoldable pub serve : List Call → StateFile → StateFile
  serve [] file = file
  serve (c ∷ calls) file = serve calls (handle c file).1
