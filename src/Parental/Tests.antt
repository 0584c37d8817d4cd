-- ===== src/Parental/Tests.antt =====
-- The parental helper on a concrete policy, and its theorems applied to it.
use singularity_shell.Base.{
  ℕ, ◌≤◌, ◌≡◌, refl, ◌≢◌, ◌⊎◌, true, false, none, some, List, [], ◌∷◌, if◌then◌else◌, length,
}
use singularity_shell.CString.{Text, codes, str_eq}
use singularity_shell.CString.Split.{lacks}
use singularity_shell.Process.{done, wrote}
use singularity_shell.Parental.{
  Env, Received, chunk, Policies, Done, unprivileged_test_mode, valid_user, valid_policy,
  read_stdin, store, write_policy, main,
}
use singularity_shell.Parental.Policy.{valid_user_safe, main_privileged}

abbrev system : Env
system = record {
  uid = 0;
  euid = 0;
  has_pkexec_uid = true;
  passwd = λ name. if str_eq name (codes "kim") then some 1001 else none;
  key_file_groups = λ text. some (codes "Time" ∷ []);
  makes_dir = true;
  makes_temporary = true;
  writes = wrote 4096 ∷ [];
  saves = true;
  unlinks = true;
}

abbrev no_policies : Policies
no_policies user = none

abbrev input : List Received
input = chunk (codes "[Time]\n") ∷ chunk [] ∷ []

abbrev stored : Done
stored = (0, store no_policies (codes "kim") (some (codes "[Time]\n")))

kim_valid : valid_user system (codes "kim") ≡ true
unfolding valid_user singularity_shell.Parental.user_byte unprivileged_test_mode
    singularity_shell.Parental.known_user str_eq
kim_valid = refl

valid_user_safe_example :
    (lacks b'/' (codes "kim") ≡ true)
    × (◌≢◌ {A = ℕ} b'k' b'.')
    × (◌≢◌ {A = ℕ} b'k' b'-')
    × (length (codes "kim") ≤ 64)
valid_user_safe_example = valid_user_safe system b'k' (codes "im") kim_valid

main_sets : main system no_policies input (codes "set" ∷ codes "kim" ∷ []) ≡ done stored
unfolding main str_eq valid_user singularity_shell.Parental.user_byte unprivileged_test_mode
    singularity_shell.Parental.known_user write_policy read_stdin
    singularity_shell.Parental.write_read singularity_shell.Parental.write_checked valid_policy
    singularity_shell.Parental.only_known singularity_shell.Parental.known_group
    singularity_shell.Crash.Files.write_all singularity_shell.Parental.save
main_sets = refl

privileged : unprivileged_test_mode system ≡ false
unfolding unprivileged_test_mode
privileged = refl

main_privileged_example :
    (stored.1 ≡ no_policies)
    ⊎ ((user : Text) × (uid : ℕ) × (system.euid ≡ 0)
        × (system.passwd user ≡ some uid)
        × (uid ≢ 0)
        × ((other : Text) → str_eq other user ≡ false → stored.1 other ≡ no_policies other))
main_privileged_example =
    main_privileged system no_policies input (codes "set" ∷ codes "kim" ∷ []) stored privileged
      main_sets
