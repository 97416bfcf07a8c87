-- ===== src/DiffCache/Tests.antt =====
-- Two worktrees with one file each, a tagged batch and a git-state batch.
use agent_cockpit.Base.{ℕ, ◌≡◌, refl, none, some, List, [], ◌∷◌, codes, Text, arith}
use agent_cockpit.Base.Maps
use agent_cockpit.Watch.Policy.{
  normalize_watch_path, split_slash, classify_git, classify_segments, classify_watch_path,
}
use agent_cockpit.DiffCache.{
  Cache, key, get, set, on_watch, evict, put, dropped, watched, is_git_state_signal, evict_project,
}
use agent_cockpit.DiffCache.Keys.{SepFree}
use agent_cockpit.DiffCache.Filed.{
  Op, set_op, watch_op, IsCache, perform, performs, performs-IsCache,
}
use agent_cockpit.DiffCache.Invalidate.{on_watch-get}

program : Unit {0}
unfolding normalize_watch_path split_slash classify_git classify_segments classify_watch_path key
    get set on_watch evict put dropped watched is_git_state_signal evict_project perform performs
    Maps.get Maps.set Maps.delete
program = tt

abbrev root : Text
root = codes "/r"

abbrev other : Text
other = codes "/w"

abbrev file : Text
file = codes "a.ts"

root-SepFree : SepFree root
root-SepFree = (omega arith, (omega arith, tt))

other-SepFree : SepFree other
other-SepFree = (omega arith, (omega arith, tt))

file-SepFree : SepFree file
file-SepFree = (omega arith, (omega arith, (omega arith, (omega arith, tt))))

abbrev ops : List (Op ℕ)
ops =
    set_op [] root file none 1
    ∷ set_op [] other file (some (codes "main")) 2
    ∷ watch_op [] (codes "b.ts" ∷ []) none
    ∷ []

abbrev cache : Cache ℕ
cache = performs ops []

ops_stored : get [] other file (some (codes "main")) cache ≡ some 2
unfolding program
ops_stored = refl

cache-IsCache : IsCache cache
cache-IsCache =
    performs-IsCache ops []
      ((root-SepFree, file-SepFree), ((other-SepFree, file-SepFree), (tt, tt))) tt

abbrev none_text : Text
none_text = []

tagged_kept : get [] root file none (on_watch [] (file ∷ []) (some other) cache) ≡ some 1
unfolding program
tagged_kept = refl

git_dropped : get [] root file none (on_watch [] (codes ".git/HEAD" ∷ []) none cache) ≡ none
unfolding program
git_dropped = refl

on_watch-get_example :
    get [] other file (some (codes "main")) (on_watch [] (file ∷ []) (some other) cache) ≡ none
unfolding program
on_watch-get_example =
    on_watch-get [] [] other file (file ∷ []) (some other) (some (codes "main")) cache other-SepFree
      file-SepFree cache-IsCache
