-- ===== src/Server/Life/Examples.antt =====
-- The theorem on the end of a server at one with two threads, whose listener fails.
use m_rpc.Prelude.{Returns, ℕ, ◌≡◌, refl, true, false, some, [], ◌∷◌, length}
use m_rpc.Server.Counting.{count}
use m_rpc.Server.Life.{
  returned, Resources, setup_thread, setup_all, TcpServer, construct, destroy, start_run,
}
use m_rpc.Server.Life.Freeing.{here, next, starts, destroy_lem}

abbrev opened : Resources
opened = record { bases = 3 ∷ 2 ∷ 1 ∷ []; pipes = (6, 7) ∷ (4, 5) ∷ []; listeners = [] }

abbrev two_threads : TcpServer
two_threads = record {
  main_base = 1;
  threads =
      record { base = 2; notify_recv_fd = 4; notify_send_fd = 5 }
      ∷ record { base = 3; notify_recv_fd = 6; notify_send_fd = 7 }
      ∷ [];
  has_ip = false;
  running = [];
  told = [];
  open_resources = opened;
}

constructed :
    construct false (some 1) (
      record { new_base = some 2; new_pipe = some (4, 5); event_added = true }
      ∷ record { new_base = some 3; new_pipe = some (6, 7); event_added = true }
      ∷ [])
    ≡ (returned two_threads, opened)
unfolding construct setup_all setup_thread
constructed = refl

abbrev half_started : TcpServer
half_started = (start_run true (some 9) (true ∷ false ∷ []) two_threads).1

destroy_lem_example :
    Returns
      (λ d.
        ((b : ℕ) → count b d.open_resources.bases ≡ 0)
        × (length d.open_resources.pipes ≡ length half_started.threads)
        × (d.running ≡ half_started.running))
      (destroy half_started)
destroy_lem_example =
    destroy_lem false (some 1) _ two_threads half_started opened constructed
      (next here (starts true (some 9) (true ∷ false ∷ [])))
