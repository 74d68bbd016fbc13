-- ===== src/Server/Teardown.antt =====
-- `~ConnectionWrapper` of server/connection.cpp, which runs when a connection was erased and no worker
-- holds it any more. It opens the directory of the user and closes it again.
use custom_concurrent_tcp_pr.Prelude.{false, if◌then◌else◌}
use custom_concurrent_tcp_pr.Server.Connection.{ConnectionWrapper}
use custom_concurrent_tcp_pr.Server.Os.{Os}
use custom_concurrent_tcp_pr.Server.State.{Globals}

unfoldable pub destroy_connection : {os : Os} → Globals os → ConnectionWrapper → Globals os
destroy_connection {os} g c =
    let fs' = (os.close g.fs c.fd).0 in
    record g {
      fs = (os.close fs' c.download_fd).0;
      admin_connected = if c.is_admin then false else g.admin_connected;
    }
