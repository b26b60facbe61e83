-- ===== src/Tests/Messages.antt =====
-- An opcode.
use ovfs.Prelude.{◌≡◌, ◌↔◌}
use ovfs.Prelude.Outcome.{ok}
use ovfs.Message.{Opcode, number, try_from}
use ovfs.Message.Opcodes.{try_from_iff}

try_from_iff_example : (try_from 26 ≡ ok Opcode.init) ↔ (number Opcode.init ≡ 26)
try_from_iff_example = try_from_iff 26 Opcode.init
