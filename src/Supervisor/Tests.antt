-- ===== src/Supervisor/Tests.antt =====
-- The supervisor with an ODB whose arrays are lists, at concrete requests.
use fe_gem.Common.{◌≡◌, ◌↔◌, ◌≢◌, refl, ap, [], ◌∷◌, arith, Bytes, codes, length}
use fe_gem.Supervisor.Workers.{
  give_me_port, add_new_client, find_host, find_host_in_worker_list, assign_port_for_worker,
  worker_port, worker_started, worker_is_running, build_frontend_name, supervisor_status,
}
use fe_gem.Supervisor.Arrays.{odb, write}
use fe_gem.Supervisor.Places.{first_host}
use fe_gem.Supervisor.Ports.{
  start_frontend, give_port, serve, serve_all, fresh, port_iff_host, first_contact, second_contact,
}
use fe_gem.Supervisor.Starts.{start_frontend_once, once_started}

abbrev lab : Bytes
lab = codes "lab"

other_host : lab ≢ first_host
other_host e = omega (arith, ap length e)

abbrev trap : Bytes
trap = codes "trap"

port_iff_host_example :
    ((first_contact odb 12_345 (give_port lab 1 ∷ []) (start_frontend trap 3 ∷ []) lab lab 2 4).1
      ≡ (second_contact odb 12_345
          (give_port lab 1 ∷ [])
          (start_frontend trap 3 ∷ [])
          lab
          lab
          2
          4).1)
    ↔ (lab ≡ lab)
unfolding give_me_port find_host_in_worker_list find_host assign_port_for_worker add_new_client
    serve serve_all worker_port worker_is_running worker_started write build_frontend_name
port_iff_host_example =
    port_iff_host odb 12_345 (give_port lab 1 ∷ []) (start_frontend trap 3 ∷ []) lab lab 2 4
      (omega arith, tt) (omega arith) (omega arith, tt) (omega arith) other_host other_host
      (omega arith)

start_frontend_once_example :
    ((add_new_client odb lab 9 (once_started odb 12_345 [] (give_port trap 3 ∷ []) lab 2 9)).0
      ≡ codes "Frontend already running")
    × ((add_new_client odb lab 9
          (once_started odb 12_345 [] (give_port trap 3 ∷ []) lab 2 9)).1.started
        ≡ (once_started odb 12_345 [] (give_port trap 3 ∷ []) lab 2 9).started)
start_frontend_once_example =
    start_frontend_once odb 12_345 [] (give_port trap 3 ∷ []) lab 2 9 tt (omega arith)
      (omega arith, tt)

ports_run : (give_me_port odb lab 1 (fresh 12_345)).1 ≡ 12_347
unfolding give_me_port find_host_in_worker_list find_host assign_port_for_worker worker_port
ports_run = refl

build_frontend_name_run :
    build_frontend_name (codes "a.very.long.host.name.example.org")
    ≡ codes "feGEM_a.very.long.host.name"
unfolding build_frontend_name
build_frontend_name_run = refl

supervisor_status_run :
    supervisor_status
      (codes "feGEM")
      (codes "midas")
      (record (fresh 1) { running_workers = 1 ∷ 2 ∷ [] })
    ≡ (codes "feGEM@midas [2 threads]", codes "greenLight")
unfolding supervisor_status
supervisor_status_run = refl
