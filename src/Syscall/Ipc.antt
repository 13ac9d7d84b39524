-- ===== src/Syscall/Ipc.antt =====
-- Messages between environments: sys_ipc_recv and sys_ipc_try_send of kern/syscall.c.
use mit_jos_f22_advanced_os.Base.{ℕ, ◌≡◌, false, some}
use mit_jos_f22_advanced_os.Base.Ret.{◌>>=◌, ok, err, e_ipc_not_recv}
use mit_jos_f22_advanced_os.Env.State.{Env, Kernel}
use mit_jos_f22_advanced_os.Env.Alloc.{envid2env}
use mit_jos_f22_advanced_os.Syscall.Calls.{sys_ipc_try_send}

-- A send to an environment that is not receiving returns -E_IPC_NOT_RECV and changes nothing.
pub sys_ipc_try_send-not_recv :
    (cur envid value srcva perm e : ℕ) (k : Kernel)
    → envid2env cur envid false k ≡ ok e
    → (k.envs e).env_ipc_recving ≡ false
    → sys_ipc_try_send cur envid value srcva perm k ≡ some (err e_ipc_not_recv, k)
unfolding sys_ipc_try_send
sys_ipc_try_send-not_recv cur envid value srcva perm e k h off = rw (h, ◌>>=◌) (rw off)
