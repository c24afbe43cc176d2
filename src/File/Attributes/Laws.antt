-- ===== src/File/Attributes/Laws.antt =====
-- Which modes `needsModeOrOwnershipChange` asks for.
use sophons.Os.{Os}
