-- ===== src/Collector/Debounce.antt =====
-- internal/collector/collector.go: `markDirty`, `Start` and `rebuildLoop`, which rebuild the graph once
-- for a burst of changes. A version counts the changes of the caches; an informer changes its cache
-- and then calls the handler. A rebuild that starts reads the caches after that, so it sees at least
-- the version at its start.
pub mod Settled
use pulsebox.Base.{ℕ, suc, ◌+◌, Bool, true, false, Option, none, some, ◌≡◌, if◌then◌else◌}

pub record Loop : Type 0 where
  pub version : ℕ
  -- The changes whose handler has not run.
  pub handlers : ℕ
  -- Whether the channel `dirty`, of capacity 1, holds a signal; and whether a timer is set.
  pub dirty : Bool
  pub timer : Bool
  -- The version that the rebuild that runs sees, and that of the last one that is complete.
  pub building : Option ℕ
  pub built : ℕ

-- A send to `dirty` that is dropped where the channel is full.
unfoldable pub mark_dirty : Loop → Loop
mark_dirty s = if s.dirty then s else record s { dirty = true }

-- The informers have synced at some version, and `Start` begins the first rebuild.
unfoldable pub start : ℕ → ℕ → Bool → Loop
start version handlers dirty = record {
  version = version;
  handlers = handlers;
  dirty = dirty;
  timer = false;
  building = some version;
  built = 0;
}

-- `case <-c.dirty`
unfoldable pub on_dirty : Loop → Loop
on_dirty s =
    if s.timer then record s { dirty = false } else record s { dirty = false; timer = true }

-- `case <-timerC`, up to the start of the rebuild; and the end of a rebuild.
unfoldable pub on_timer : Loop → Loop
on_timer s = record s { timer = false; building = some s.version }

unfoldable pub finish_rebuild : ℕ → Loop → Loop
finish_rebuild seen s = record s { building = none; built = seen }

-- The steps of the loop, which waits while a rebuild runs.
pub data LoopStep : Loop → Loop → Type 0 where
  takes : (s : Loop) → s.building ≡ none → s.dirty ≡ true → LoopStep s (on_dirty s)
  fires : (s : Loop) → s.building ≡ none → s.timer ≡ true → LoopStep s (on_timer s)
  finishes : (s : Loop) (seen : ℕ) → s.building ≡ some seen → LoopStep s (finish_rebuild seen s)

-- The steps of the whole: the loop, a change of a cache, and the handler of one.
pub data Step : Loop → Loop → Type 0 where
  loops : {s u : Loop} → LoopStep s u → Step s u
  changes : (s : Loop) → Step s (record s { version = suc s.version; handlers = suc s.handlers })
  handles :
      (s : Loop) (n : ℕ) → s.handlers ≡ suc n → Step s (record (mark_dirty s) { handlers = n })

pub data Reach (s : Loop) : Loop → Type 0 where
  here : Reach s s
  next : {t u : Loop} → Reach s t → Step t u → Reach s u
