-- ===== src/Filesystem/Dispatch.antt =====
-- `handle_message` of src/filesystem.rs: the header of a request, and the handler of its opcode.
pub mod Answers
use ovfs.Prelude.{ℕ, ◌+◌, ltb, if◌then◌else◌}
use ovfs.Prelude.Outcome.{Outcome, ok, err, panic, hang}
use ovfs.Prelude.Exec.{pure, ◌>>=◌, ◌>>◌}
use ovfs.Libc
use ovfs.Error.{Result}
use ovfs.Stream.{Reader, Writer}
use ovfs.Message.{Opcode, InHeader, try_from}
use ovfs.Message.Requests.{in_header_byte_valued}
use ovfs.Filesystem.State.{Host, Fs}
use ovfs.Filesystem.Reply.{reply_error, or_reply}
use ovfs.Filesystem.Request.{buffer_header_size, max_buffer_size, read_obj}
use ovfs.Filesystem.Handlers
use ovfs.Filesystem.DataHandlers

module _ (h : Host) where
  unfoldable pub handle : Opcode → InHeader → Reader h.volatile → Writer h.volatile → Fs h ℕ
  handle Opcode.init in_header r w = Handlers.init h in_header r w
  handle Opcode.destroy in_header r w = Handlers.destory h
  handle Opcode.forget in_header r w = Handlers.forget h in_header
  handle Opcode.lookup in_header r w = Handlers.lookup h in_header r w
  handle Opcode.getattr in_header r w = Handlers.getattr h in_header r w
  handle Opcode.setattr in_header r w = Handlers.setattr h in_header r w
  handle Opcode.create in_header r w = Handlers.create h in_header r w
  handle Opcode.unlink in_header r w = Handlers.unlink h in_header r w
  handle Opcode.release in_header r w = Handlers.release h in_header r w
  handle Opcode.flush in_header r w = Handlers.flush h in_header r w
  handle Opcode.open_ in_header r w = Handlers.open_file h in_header r w
  handle Opcode.read in_header r w = DataHandlers.read h in_header r w
  handle Opcode.write in_header r w = DataHandlers.write h in_header r w
  handle Opcode.mkdir in_header r w = DataHandlers.mkdir h in_header r w
  handle Opcode.rmdir in_header r w = DataHandlers.rmdir h in_header r w
  handle Opcode.releasedir in_header r w = DataHandlers.releasedir h in_header r w
  handle Opcode.fsyncdir in_header r w = DataHandlers.fsyncdir h in_header r w
  handle Opcode.opendir in_header r w = DataHandlers.opendir h in_header r w
  handle Opcode.readdir in_header r w = DataHandlers.readdir h in_header r w

  -- The reply to an opcode that does not decode.
  unfoldable pub dispatch :
      Result Opcode → InHeader → Reader h.volatile → Writer h.volatile → Fs h ℕ
  unfolding handle reply_error
  dispatch (ok opcode) in_header r w = handle opcode in_header r w
  dispatch _ in_header r w = reply_error h in_header.unique w Libc.enosys

  unfoldable pub handle_message : Reader h.volatile → Writer h.volatile → Fs h ℕ
  unfolding read_obj reply_error dispatch try_from
  handle_message r w = do
    (in_header, r') ← read_obj h {T = InHeader} r
    if ltb (max_buffer_size + buffer_header_size) in_header.len
        then reply_error h in_header.unique w Libc.eio
        else dispatch (try_from in_header.opcode) in_header r' w
