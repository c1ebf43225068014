-- ===== src/MemoryChecks/Passing.antt =====
-- What an access that passes the checks may rely on.
use seec.StdMap.Related.{Related}
