-- ===== src/SupDem/AgentTests.antt =====
-- A client of hw1/supdemserv.c that comes and goes.
use advanced_unix_ceng.Base.{[], ◌∷◌}
use advanced_unix_ceng.SupDem.Agent.Leaves.{Leaves}
use advanced_unix_ceng.SupDem.InputTests.{quiet, small_memory}
use advanced_unix_ceng.SupDem.Server.{free_client}
use advanced_unix_ceng.SupDem.State.{SharedMem}

abbrev roomy_memory : SharedMem
roomy_memory = record small_memory { clients = quiet ∷ free_client ∷ [] }
