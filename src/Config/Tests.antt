-- ===== src/Config/Tests.antt =====
-- Instances of the theorems about src/serveur/ServerConfigFile.cpp.
use servd.Base.{◌≡◌, refl, some, List, [], ◌∷◌, arith}
use servd.Result.{ok}
use servd.Config.{info, warn, ServerConfig, load_config}
use servd.Config.Files.{
  Setting, comment, tcp_port, udp_port, unix_path, client_limit, level, apply_all, file_of,
  load_config-file_of,
}

abbrev unset : ServerConfig
unset = record {
  tcp_ports = [];
  udp_ports = [];
  unix_paths = [];
  max_clients = 0;
  log_level = info;
  log_file = [];
}

abbrev settings : List Setting
settings =
    comment (b'a' ∷ [])
    ∷ tcp_port 8080
    ∷ udp_port 8081
    ∷ unix_path (b'/' ∷ b's' ∷ [])
    ∷ client_limit 100
    ∷ level warn
    ∷ []

load_config-file_of_example :
    load_config (some (file_of settings)) unset ≡ (ok tt, apply_all settings unset)
load_config-file_of_example = load_config-file_of settings unset (
  (refl, tt),
  (omega arith, (omega arith, ((_, _, refl, (refl, (refl, tt))), (omega arith, (tt, tt))))),
)
