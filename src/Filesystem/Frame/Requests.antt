-- ===== src/Filesystem/Frame/Requests.antt =====
-- The addresses to which `handle_message` of src/filesystem.rs writes.
use ovfs.Prelude.{ℕ, refl}
use ovfs.Prelude.Outcome.{ok, err, panic, hang}
use ovfs.Prelude.Exec.Keeps.{Keeps, Keeps-bind, Keeps-pure, Keeps-if}
use ovfs.Volatile.{IsVolatile}
use ovfs.Libc
use ovfs.Error.{Result}
use ovfs.Stream.{Reader, Writer}
use ovfs.Message.{Opcode, InHeader, try_from}
use ovfs.Filesystem.State.{Host, World}
use ovfs.Filesystem.Handlers
use ovfs.Filesystem.Dispatch.{handle, dispatch, handle_message}
use ovfs.Prelude.{◌≡◌}
use ovfs.Message.Requests.{in_header_byte_valued, read_in_byte_valued}
use ovfs.Chain.Flat.{left}
use ovfs.Chain.Frame.{Apart}
use ovfs.Filesystem.Frame.Steps.{Same}
use ovfs.Filesystem.Frame.Calls.{Clear, Keeps-reply_error, Keeps-read_obj}
use ovfs.Filesystem.Frame.Handlers.{
  Keeps-init, Keeps-lookup, Keeps-getattr, Keeps-create, Keeps-unlink, Keeps-release, Keeps-flush,
  Keeps-open_file,
}
use ovfs.Filesystem.Frame.DataHandlers.{
  Keeps-read, Keeps-write, Keeps-mkdir, Keeps-rmdir, Keeps-releasedir, Keeps-fsyncdir,
  Keeps-opendir, Keeps-readdir,
}

module _ (h : Host) (L : IsVolatile h.volatile) (a b : ℕ) where
  Keeps-handle :
      (opcode : Opcode) (in_header : InHeader) (r : Reader h.volatile) (w : Writer h.volatile)
      → Clear h L a b w
      → Keeps (Same h a b) (handle h opcode in_header r w)
  unfolding handle Handlers.destory Handlers.forget Handlers.setattr
  Keeps-handle Opcode.init in_header r w p = Keeps-init h L a b in_header r w p
  Keeps-handle Opcode.destroy in_header r w p = Keeps-pure 0
  Keeps-handle Opcode.forget in_header r w p = Keeps-pure 0
  Keeps-handle Opcode.lookup in_header r w p = Keeps-lookup h L a b in_header r w p
  Keeps-handle Opcode.getattr in_header r w p = Keeps-getattr h L a b in_header r w p
  Keeps-handle Opcode.setattr in_header r w p = Keeps-getattr h L a b in_header r w p
  Keeps-handle Opcode.create in_header r w p = Keeps-create h L a b in_header r w p
  Keeps-handle Opcode.unlink in_header r w p = Keeps-unlink h L a b in_header r w p
  Keeps-handle Opcode.release in_header r w p = Keeps-release h L a b in_header r w p
  Keeps-handle Opcode.flush in_header r w p = Keeps-flush h L a b in_header r w p
  Keeps-handle Opcode.open_ in_header r w p = Keeps-open_file h L a b in_header r w p
  Keeps-handle Opcode.read in_header r w p = Keeps-read h L a b in_header r w p
  Keeps-handle Opcode.write in_header r w p = Keeps-write h L a b in_header r w p
  Keeps-handle Opcode.mkdir in_header r w p = Keeps-mkdir h L a b in_header r w p
  Keeps-handle Opcode.rmdir in_header r w p = Keeps-rmdir h L a b in_header r w p
  Keeps-handle Opcode.releasedir in_header r w p = Keeps-releasedir h L a b in_header r w p
  Keeps-handle Opcode.fsyncdir in_header r w p = Keeps-fsyncdir h L a b in_header r w p
  Keeps-handle Opcode.opendir in_header r w p = Keeps-opendir h L a b in_header r w p
  Keeps-handle Opcode.readdir in_header r w p = Keeps-readdir h L a b in_header r w p

  Keeps-dispatch :
      (opcode : Result Opcode) (in_header : InHeader) (r : Reader h.volatile)
      (w : Writer h.volatile)
      → Clear h L a b w
      → Keeps (Same h a b) (dispatch h opcode in_header r w)
  unfolding dispatch
  Keeps-dispatch (ok opcode) in_header r w p = Keeps-handle opcode in_header r w p
  Keeps-dispatch (err e) in_header r w p =
      Keeps-reply_error h L a b in_header.unique w Libc.enosys p
  Keeps-dispatch panic in_header r w p = Keeps-reply_error h L a b in_header.unique w Libc.enosys p
  Keeps-dispatch hang in_header r w p = Keeps-reply_error h L a b in_header.unique w Libc.enosys p

  Keeps-handle_message :
      (r : Reader h.volatile) (w : Writer h.volatile)
      → Clear h L a b w
      → Keeps (Same h a b) (handle_message h r w)
  unfolding handle_message
  Keeps-handle_message r w p = Keeps-bind _ _ (Keeps-read_obj h L a b r) λ q.
      Keeps-if _ _ _ (Keeps-reply_error h L a b q.0.unique w Libc.eio p)
        (Keeps-dispatch (try_from q.0.opcode) q.0 q.1 w p)

-- Over slices that do what they document, and for every reader, writer and state: handle_message
-- changes no byte of guest memory at an address that is none of the addresses left in the writer,
-- however it ends.
pub handle_message-Apart :
    (h : Host) (L : IsVolatile h.volatile) (r : Reader h.volatile) (w : Writer h.volatile)
    (s : World h) (a : ℕ)
    → Apart a (left h.volatile w.buffer)
    → (handle_message h r w s).1.memory a ≡ s.memory a
handle_message-Apart h L r w s a p = (Keeps-handle_message h L a (s.memory a) r w p).at s refl
