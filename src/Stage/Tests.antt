-- ===== src/Stage/Tests.antt =====
-- The stage client on concrete replies, and its theorems applied to them.
use singularity_shell.Base.{
  ◌≡◌, refl, true, false, not, ◌&&◌, some, [], ◌∷◌, leb, ◌==◌, if◌then◌else◌,
}
use singularity_shell.Stage.{Env, hides, Stage, initial, calls, get_manager, get_group, not_found}
use singularity_shell.Stage.Groups.{last_reply, found_of, get_group_lem}

abbrev compositor : Env
compositor = record {
  display = some 1;
  makes_queue = true;
  globals = (false, 5) ∷ (true, 3) ∷ [];
  is_valid = λ toplevel. not (toplevel == 0);
  roundtrips = true;
  replies = (7, 2, 0) ∷ (8, 9, 1) ∷ (7, 4, 1) ∷ [];
}

finds_group : (get_group compositor 7 initial).0 ≡ record { ok = true; group = 4; hidden = true }
unfolding get_group
finds_group = refl

get_group_lem_example : (get_group compositor 7 initial).0 ≡ (
    if (get_manager compositor initial).0
      && leb 2 (get_manager compositor initial).1.bound_version
      && (get_manager compositor initial).1.stage_queue
      && compositor.is_valid 7
      && compositor.roundtrips
    then found_of (last_reply 7 compositor.replies)
    else not_found)
get_group_lem_example = get_group_lem compositor 7 initial

managed : (calls ((compositor, hides 7 true) ∷ []) initial).manager ≡ true
unfolding calls singularity_shell.Stage.call singularity_shell.Stage.set_hidden
managed = refl
