-- ===== src/Base/Codes.antt =====
-- The results of the kernel's functions: MIGRATEPAGE_SUCCESS (0), or a negative error number
-- (arm64_files/migrate.c uses those below; `other` is any that a callback returns besides).
use Prim.Native.Nat.{ℕ}
use mathlib.Core.Bool.{Bool, true, false}

pub data Errno : Type 0 where
  eagain ebusy enomem enosys einval eio efault enoent enodev eacces eperm esrch eexist : Errno
  other : ℕ → Errno

pub data Rc : Type 0 where
  success : Rc
  fail : Errno → Rc

-- `rc == MIGRATEPAGE_SUCCESS`.
abbrev pub is_success : Rc → Bool
is_success success = true
is_success (fail e) = false

-- `rc == -EAGAIN`.
abbrev pub is_eagain : Rc → Bool
is_eagain (fail eagain) = true
is_eagain _ = false

-- `enum migrate_mode`.
pub data Mode : Type 0 where
  async sync_light sync sync_no_copy : Mode

abbrev pub is_async : Mode → Bool
is_async async = true
is_async _ = false

-- The modes that may block on writeback and dirty data: MIGRATE_SYNC and MIGRATE_SYNC_NO_COPY.
abbrev pub is_full_sync : Mode → Bool
is_full_sync sync = true
is_full_sync sync_no_copy = true
is_full_sync _ = false
