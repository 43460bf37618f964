-- ===== src/Object/Symbols.antt =====
-- `setForeignSym` compares the receiver with the wrong object.
use sobek.Value.{Value}
