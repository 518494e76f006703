-- ===== src/Tests/Loops.antt =====
-- The debounced loop: the first rebuild ends, a cache changes, and the change is built.
use pulsebox.Base.{ℕ, suc, ◌≤◌, false, ◌≡◌, refl}
use pulsebox.Collector.Debounce.{
  Loop, mark_dirty, start, on_dirty, on_timer, finish_rebuild, takes, fires, finishes, loops,
  changes, handles, Reach, here, next,
}
use pulsebox.Collector.Debounce.Settled.{
  rank, Run, done, more, settled-current, Run-length-le, settles,
}

abbrev first_built : Loop
first_built = finish_rebuild 3 (start 3 0 false)

abbrev changed : Loop
changed = record first_built {
  version = suc first_built.version;
  handlers = suc first_built.handlers;
}

abbrev handled : Loop
handled = record (mark_dirty changed) { handlers = 0 }

abbrev timed : Loop
timed = on_dirty handled

abbrev fired : Loop
fired = on_timer timed

abbrev rebuilt : Loop
rebuilt = finish_rebuild 4 fired

handled-Reach : Reach (start 3 0 false) handled
unfolding start finish_rebuild mark_dirty
handled-Reach =
    next (next (next here (loops (finishes (start 3 0 false) 3 refl))) (changes first_built))
      (handles changed 0 refl)

rebuilt-Reach : Reach (start 3 0 false) rebuilt
unfolding start finish_rebuild mark_dirty on_dirty on_timer
rebuilt-Reach =
    next
      (next (next handled-Reach (loops (takes handled refl refl))) (loops (fires timed refl refl)))
      (loops (finishes fired 4 refl))

settled-current_example : rebuilt.built ≡ 4
unfolding start finish_rebuild mark_dirty on_dirty on_timer
settled-current_example = settled-current 3 0 false rebuilt-Reach refl refl refl refl

three_steps : Run 3 handled rebuilt
unfolding start finish_rebuild mark_dirty on_dirty on_timer
three_steps =
    more 2 (takes handled refl refl)
      (more 1 (fires timed refl refl) (more 0 (finishes fired 4 refl) (done rebuilt)))

Run-length-le_example : 3 ≤ 6
Run-length-le_example = Run-length-le three_steps

settles_example :
    (n : ℕ) × (u : Loop) × Run n handled u × (n ≤ 6) × (rank u ≡ 0) × (u.built ≡ handled.version)
unfolding start finish_rebuild mark_dirty
settles_example = settles 3 0 false handled-Reach refl
