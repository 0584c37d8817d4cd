-- ===== src/Crash/Spool/Owner.antt =====
-- Whose directory `open_user_dir` hands out.
use singularity_shell.Base.{ℕ, ◌≡◌, ◌⊎◌, some, ◌∷◌, ◌++◌, arith}
use singularity_shell.CString.Numbers.{print_nat}
use singularity_shell.Crash.Config.{Config}
use singularity_shell.Crash.Spool.{chowned, DirEnv, OpenDir, claim_dir, open_user_dir}

-- For root, or for the crashed user's own process: a directory that is handed out belongs to the
-- crashed user and is the one named after that user in the spool directory.
pub open_user_dir-owner :
    (cfg : Config) (env : DirEnv) (euid uid : ℕ) (dir : OpenDir)
    → (euid ≡ 0) ⊎ (euid ≡ uid)
    → open_user_dir cfg env euid uid ≡ some dir
    → (dir.owner ≡ uid) × (dir.path ≡ cfg.spool_dir ++ b'/' ∷ print_nat uid)
unfolding open_user_dir claim_dir chowned
open_user_dir-owner cfg env euid uid dir who h = ground arith
