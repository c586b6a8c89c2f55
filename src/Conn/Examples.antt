-- ===== src/Conn/Examples.antt =====
-- A connection over lists of bytes.
use m_rpc.Prelude.{some, [], ◌∷◌}
use m_rpc.Platform.Concrete.{list_buffer}
use m_rpc.Conn.{Conn}

abbrev open_conn : Conn list_buffer
open_conn = record {
  fd = 5;
  thread = 1;
  bev = 2;
  read_buf = some (1 ∷ 2 ∷ 3 ∷ []);
  write_buf = some (9 ∷ []);
}
