-- ===== src/Gunicorn/Tests.antt =====
-- The theorems on dead workers at a concrete run of the arbiter, and at a worker with one request.
use talisker.Common.{
  some, true, ◌∷◌, nat_eq, ◌+◌, ◌*◌, ◌≤◌, String, none, [], ◌++◌, ◌≡◌, refl, string_eq, inl, inr,
}
use talisker.Context.Data.{Contexts}
use talisker.Gunicorn.Arbiter.{
  Arbiter, idle, looping, leaving, custom, child_exit, clean_up, finish_handling, exit, start, take,
  clean, leave, finish, Reach, here, next,
}
use talisker.Gunicorn.Arbiter.Steps.{all_dead, exits_of, reach-all_dead, IsAwake}
use talisker.Gunicorn.Arbiter.Drain.{
  IsAtRest, idle-IsAtRest, Fresh, reach-AtRest, work, own_steps, outside_steps, own_steps-bound,
}

abbrev no_contexts : Contexts String
no_contexts = record { context_map = []; current_id = none; warnings = [] }

abbrev resting : Arbiter
resting = record {
  dead = [];
  sig_queue = [];
  phase = idle;
  busy = none;
  cleaned = [];
  failed = [];
  contexts = no_contexts;
}

-- Two workers exit.
abbrev two_exits : Arbiter
two_exits = child_exit 8 (child_exit 7 resting)

two_exits_run : Reach resting two_exits
two_exits_run = next (next here (exit resting 7)) (exit (child_exit 7 resting) 8)

reach-all_dead_example : all_dead two_exits ≡ all_dead resting ++ exits_of two_exits_run
reach-all_dead_example = reach-all_dead two_exits_run

own_steps-bound_example :
    own_steps two_exits_run + work two_exits ≤ work resting + 5 * outside_steps two_exits_run
own_steps-bound_example = own_steps-bound two_exits_run

two_exits-IsAwake : IsAwake two_exits
unfolding child_exit
two_exits-IsAwake = record { wakes = inr (inr refl); free = inl refl }

resting-Fresh : Fresh resting
resting-Fresh = record { dead = refl; busy = refl; cleaned = refl }

-- Worker 7 exits while the arbiter rests, and its clean-up raises.
abbrev noticed : Arbiter
noticed = record resting { dead = 7 ∷ []; sig_queue = custom ∷ [] }

abbrev called : Arbiter
called = record noticed { phase = looping; sig_queue = [] }

abbrev emptied : Arbiter
emptied = record called { dead = []; cleaned = 7 ∷ []; failed = 7 ∷ [] }

exit_noticed : Reach resting noticed
unfolding child_exit
exit_noticed = next here (exit resting 7)

exit_emptied : Reach resting emptied
unfolding clean_up
exit_emptied =
    next (next (next exit_noticed (start noticed [] refl refl)) (take called 7 [] refl refl refl))
      (clean (record called { dead = []; busy = some 7 }) 7 true refl refl)

abbrev left : Arbiter
left = record emptied { phase = leaving }

exit_handled : Reach resting (finish_handling left)
exit_handled = next (next exit_emptied (leave emptied refl refl refl)) (finish left refl)

handled-IsAtRest : IsAtRest (finish_handling left)
unfolding finish_handling
handled-IsAtRest = idle-IsAtRest (finish_handling left) refl refl

reach-AtRest_example :
    ((finish_handling left).phase ≡ idle)
    × ((finish_handling left).dead ≡ [])
    × ((finish_handling left).cleaned ≡ exits_of exit_handled)
reach-AtRest_example = reach-AtRest exit_handled resting-Fresh handled-IsAtRest
