-- ===== src/Supervisor/Workers.antt =====
-- The worker list of class feGEMSupervisor, src/feGEMSupervisor.cxx and include/feGEMSupervisor.h.
-- The arrays of WorkerList in the ODB are what a read of them gives; how a write changes that is the
-- ODB's, and an argument with the behaviour that the source relies on.
use fe_gem.Common.{
  ℕ, ◌+◌, ◌-◌, ◌%◌, ◌^◌, ◌<◌, ◌≡◌, Bool, true, false, Option, none, some, List, [], ◌∷◌, ◌++◌,
  Bytes, codes, ltb, ◌==◌, if◌then◌else◌, length, get_or, take, bytes_eq, to_string,
}

pub record WorkerList : Type 1 where
  -- WSAI("HostName", index, hostname) on what RSA reads, and the names that the array can hold.
  pub write_name : List Bytes → ℕ → Bytes → List Bytes
  pub Storable : Bytes → Type 0
  pub write_name-end :
      (names : List Bytes) (name : Bytes)
      → Storable name
      → write_name names (length names) name ≡ names ++ name ∷ []
  -- WU32AI("DateAdded", index, date)
  pub write_date : List ℕ → ℕ → ℕ → List ℕ
  -- WU16AI("Port", index, port). A write behind the end fills the places between with zeros.
  pub write_port : List ℕ → ℕ → ℕ → List ℕ
  pub write_port-end :
      (ports : List ℕ) (port : ℕ) → write_port ports (length ports) port ≡ ports ++ port ∷ []
  pub write_port-gap :
      (ports : List ℕ) (i port : ℕ)
      → length ports < i
      → write_port ports i port ≡ write_port (ports ++ 0 ∷ []) i port

-- A frontend thread that was started: the equipment's name, its port and the client.
pub record Started : Type 0 where
  pub name : Bytes
  pub port : ℕ
  pub hostname : Bytes

pub record Supervisor : Type 0 where
  pub f_port : ℕ
  pub host_names : List Bytes
  pub dates_added : List ℕ
  pub ports : List ℕ
  pub running_workers : List ℕ
  pub started : List Started

-- SetFEStatus: the text and the colour.
unfoldable pub supervisor_status : Bytes → Bytes → Supervisor → Bytes × Bytes
unfolding to_string
supervisor_status frontend_name frontend_hostname s =
    let threads = length s.running_workers in
    (
      frontend_name
          ++ (b'@'
              ∷ (frontend_hostname
                  ++ (codes " ["
                      ++ (to_string threads
                          ++ (codes " thread"
                              ++ ((if ltb 1 threads then codes "s" else []) ++ codes "]")))))),
      codes "greenLight",
    )

-- The first place of a host name from place `i` on.
unfoldable pub find_host : List Bytes → Bytes → ℕ → Option ℕ
find_host [] hostname i = none
find_host (name ∷ names) hostname i =
    let rest = find_host names hostname (i + 1) in if bytes_eq name hostname then some i else rest

-- port=fPort+workerID+1, as the uint16_t that is written and returned.
unfoldable pub worker_port : ℕ → ℕ → ℕ
worker_port f_port worker_id = (f_port + worker_id + 1) % 2 ^ 16

unfoldable pub worker_is_running : List ℕ → ℕ → Bool
worker_is_running [] worker_id = false
worker_is_running (id ∷ ids) worker_id =
    let rest = worker_is_running ids worker_id in if id == worker_id then true else rest

unfoldable pub worker_started : ℕ → Supervisor → Supervisor
worker_started worker_id s = record s { running_workers = s.running_workers ++ worker_id ∷ [] }

unfoldable pub build_frontend_name : Bytes → Bytes
build_frontend_name hostname =
    let name = codes "feGEM_" ++ hostname in
    if ltb (31 - 4) (length name) then take (31 - 4) name else name

module _ (odb : WorkerList) where
  unfoldable pub find_host_in_worker_list : Bytes → ℕ → Supervisor → ℕ × Supervisor
  find_host_in_worker_list hostname now s = elim (find_host s.host_names hostname 0) [
    | some i ↦ (i, s)
    | none ↦
        let size = length s.host_names in
        (
          size,
          record s {
            host_names = odb.write_name s.host_names size hostname;
            dates_added = odb.write_date s.dates_added size now;
          },
        )
  ]

  unfoldable pub assign_port_for_worker : ℕ → Supervisor → ℕ × Supervisor
  assign_port_for_worker worker_id s =
      if ltb worker_id (length s.ports) then (get_or s.ports worker_id 0, s) else (
        worker_port s.f_port worker_id,
        record s { ports = odb.write_port s.ports worker_id (worker_port s.f_port worker_id) },
      )

  -- The command GIVE_ME_PORT: the worker's number and port.
  unfoldable pub give_me_port : Bytes → ℕ → Supervisor → ℕ × ℕ × Supervisor
  give_me_port hostname now s =
      let (worker_no, s) = find_host_in_worker_list hostname now s in
      let (port, s) = assign_port_for_worker worker_no s in (worker_no, port, s)

  unfoldable pub add_new_client : Bytes → ℕ → Supervisor → Bytes × Supervisor
  add_new_client hostname now s =
      let (worker_no, port, s) = give_me_port hostname now s in
      if worker_is_running s.running_workers worker_no
      then (codes "Frontend already running", s)
      else (
        codes "New Frontend started",
        record (worker_started worker_no s) {
          started =
              s.started
              ++ (record { name = build_frontend_name hostname; port = port; hostname = hostname })
                ∷ [];
        },
      )
