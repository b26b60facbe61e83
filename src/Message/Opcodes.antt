-- ===== src/Message/Opcodes.antt =====
-- The decoding of opcodes.
use ovfs.Prelude.{ℕ, ◌≡◌, ◌↔◌, refl, arith}
use ovfs.Prelude.Outcome.{ok}
use ovfs.Message.{
  Opcode, number, try_from, lookup, forget, getattr, setattr, mkdir, unlink, rmdir, open_, read,
  write, release, flush, init, opendir, readdir, releasedir, fsyncdir, create, destroy,
}

try_from-number : (o : Opcode) → try_from (number o) ≡ ok o
unfolding try_from
try_from-number lookup = refl
try_from-number forget = refl
try_from-number getattr = refl
try_from-number setattr = refl
try_from-number mkdir = refl
try_from-number unlink = refl
try_from-number rmdir = refl
try_from-number open_ = refl
try_from-number read = refl
try_from-number write = refl
try_from-number release = refl
try_from-number flush = refl
try_from-number init = refl
try_from-number opendir = refl
try_from-number readdir = refl
try_from-number releasedir = refl
try_from-number fsyncdir = refl
try_from-number create = refl
try_from-number destroy = refl

number_of_ok : (value : ℕ) (o : Opcode) → try_from value ≡ ok o → number o ≡ value
unfolding try_from
number_of_ok value o h = ground arith

-- For every number and opcode: the number decodes to the opcode if and only if it is the number of
-- the opcode.
pub try_from_iff : (value : ℕ) (o : Opcode) → (try_from value ≡ ok o) ↔ (number o ≡ value)
try_from_iff value o = (number_of_ok value o, λ h. rw (← h) (try_from-number o))
