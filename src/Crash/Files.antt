-- ===== src/Crash/Files.antt =====
-- src/services/crash-handler/main.c: `write_core` and `write_report`, which write a file under a
-- temporary name and rename it when it is complete.
pub mod Shown
pub mod Atomic
use singularity_shell.Base.{
  take, ℕ, ◌+◌, Bool, true, false, not, ◌&&◌, ◌||◌, List, [], ◌∷◌, ◌++◌, ltb, ◌==◌, if◌then◌else◌,
  length, drop,
}
use singularity_shell.CString.{Text, codes, copy_into}
use singularity_shell.Process.{Written, wrote, interrupted, failed, Outcome, done, waiting, ◌>>=◌}
use singularity_shell.Crash.Spool.{Dir, has_file, unlink}

-- What read on standard input answers: bytes (none at the end), EINTR, or another error.
pub data Received : Type 0 where
  chunk : Text → Received
  read_interrupted read_failed : Received

-- The answers to the other calls: open of the temporary file (besides the check for its name), fchown,
-- renameat, unlinkat of the temporary file, and whether geteuid is 0.
pub record FileEnv : Type 0 where
  pub opens : Bool
  pub is_root : Bool
  pub chowns : Bool
  pub renames : Bool
  pub unlinks : Bool

abbrev pub temporary : Text → Text
temporary name = copy_into 300 (name ++ codes ".tmp")

-- `while (off < n)`, on what the file holds: whether the loop ran to its end, what the file holds then,
-- and the answers that are left. A write puts the bytes it took behind the content.
unfoldable pub write_all : Text → List Written → Text → Outcome (Bool × Text × List Written)
write_all content answers [] = done (true, content, answers)
write_all content [] (c ∷ s) = waiting
write_all content (interrupted ∷ answers) (c ∷ s) = write_all content answers (c ∷ s)
write_all content (failed ∷ answers) (c ∷ s) = done (false, content, answers)
write_all content (wrote n ∷ answers) (c ∷ s) =
    write_all (content ++ take n (c ∷ s)) answers (drop n (c ∷ s))

-- `ok`, `total` and what the temporary file holds when the loop of `write_core` ends.
pub record Copied : Type 0 where
  pub ok : Bool
  pub total : ℕ
  pub content : Text

unfoldable pub copy_core : ℕ → ℕ → Text → List Received → List Written → Outcome Copied
copy_core max_bytes total content [] answers = waiting
copy_core max_bytes total content (read_interrupted ∷ input) answers =
    copy_core max_bytes total content input answers
copy_core max_bytes total content (read_failed ∷ input) answers =
    done (record { ok = false; total = total; content = content })
copy_core max_bytes total content (chunk [] ∷ input) answers =
    done (record { ok = true; total = total; content = content })
copy_core max_bytes total content (chunk (c ∷ s) ∷ input) answers =
    let total' = total + length (c ∷ s) in
    let next : Bool × Text × List Written → Outcome Copied = λ r. elim r.0 [
      | true ↦ copy_core max_bytes total' r.1 input r.2
      | false ↦ done (record { ok = false; total = total'; content = r.1 })
    ] in
    if ltb max_bytes total'
    then done (record { ok = false; total = total'; content = content })
    else write_all content answers (c ∷ s) >>= next

-- renameat: the new name holds the file, and what it held before is gone.
unfoldable pub rename_file : Text → Text → Text → Dir → Dir
rename_file tmp name content dir = (name, content) ∷ unlink name (unlink tmp dir)

-- The end of `write_core` and of `write_report`, behind the loop: `drop_it` is whether the file is
-- thrown away. The result of unlinkat is ignored: where it fails, the temporary file stays.
unfoldable pub finish_file : Bool → FileEnv → Text → Text → Text → Dir → Bool × Dir
unfolding rename_file
finish_file drop_it env tmp name content dir =
    let written : Dir = (tmp, content) ∷ dir in
    if drop_it || not env.renames
    then (false, if env.unlinks then unlink tmp written else written)
    else (true, rename_file tmp name content written)

-- `true` is the return value 0.
unfoldable pub write_core :
    FileEnv → Text → ℕ → List Received → List Written → Dir → Outcome (Bool × Dir)
write_core env name max_bytes input answers dir =
    if not env.opens || has_file (temporary name) dir
    then done (false, dir)
    else copy_core max_bytes 0 [] input answers >>= λ c. done (
        finish_file (not c.ok || (ltb 0 c.total && env.is_root && not env.chowns) || c.total == 0)
          env (temporary name) name c.content dir)

unfoldable pub write_report : FileEnv → Text → Text → List Written → Dir → Outcome (Bool × Dir)
write_report env name content answers dir =
    if not env.opens || has_file (temporary name) dir
    then done (false, dir)
    else write_all [] answers content >>= λ r.
        done (
          finish_file (not r.0 || (env.is_root && not env.chowns)) env (temporary name) name r.1
            dir)
