-- ===== src/Message.antt =====
-- The structures of src/filesystem_message.rs, and its `Opcode` with the numbers of the protocol.
mod Structs
pub mod Layout
pub mod Requests
pub mod Replies
pub mod Opcodes
pub use Structs.*
use ovfs.Prelude.{ℕ, none, ◌==◌, if◌then◌else◌}
use ovfs.Prelude.Outcome.{Outcome, ok, err}
use ovfs.Error.{Result, new_vhost_user_fs_error}

pub data Opcode : Type 0 where
  lookup forget getattr setattr mkdir unlink rmdir open_ read write release flush init opendir
        readdir releasedir fsyncdir create destroy :
      Opcode

-- The discriminants.
abbrev pub number : Opcode → ℕ
number lookup = 1
number forget = 2
number getattr = 3
number setattr = 4
number mkdir = 9
number unlink = 10
number rmdir = 11
number open_ = 14
number read = 15
number write = 16
number release = 18
number flush = 25
number init = 26
number opendir = 27
number readdir = 28
number releasedir = 29
number fsyncdir = 30
number create = 35
number destroy = 38

-- `TryFrom<u32> for Opcode`
unfoldable pub try_from : ℕ → Result Opcode
try_from value =
    if value == 1
    then ok lookup
    else if value == 2
    then ok forget
    else if value == 3
    then ok getattr
    else if value == 4
    then ok setattr
    else if value == 9
    then ok mkdir
    else if value == 10
    then ok unlink
    else if value == 11
    then ok rmdir
    else if value == 14
    then ok open_
    else if value == 15
    then ok read
    else if value == 16
    then ok write
    else if value == 18
    then ok release
    else if value == 25
    then ok flush
    else if value == 26
    then ok init
    else if value == 27
    then ok opendir
    else if value == 28
    then ok readdir
    else if value == 29
    then ok releasedir
    else if value == 30
    then ok fsyncdir
    else if value == 35
    then ok create
    else if value == 38
    then ok destroy
    else err (new_vhost_user_fs_error "failed to decode opcode" none)
