-- ===== src/CompactStatus/Leak.antt =====
-- A compaction within one level, taken and given back: compaction.go.
use badgerx.Prelude.{ℕ, ◌≡◌, ◌∙◌, sym, true, false, some, List, [], ◌∷◌, ◌++◌, arith, get_elem?}
use badgerx.KeyRange
use badgerx.KeyRange.{KeyRange, Contains, IsProper, equals, is_empty}
use badgerx.KeyRange.Overlap.{overlaps_with_self}
use badgerx.CompactStatus.Levels.{get_elem?-update_level_self}
use badgerx.CompactStatus.Disjoint.{Outcome, compare_and_add-Outcome}
use badgerx.CompactStatus.{
  LevelCompactStatus, CompactStatus, CompactDef, update_level, overlaps_any, level_overlaps_with,
  overlaps_with, compare_and_add, store_run, add_range, remove_range, level_remove, release_this,
  release_next, finish, delete_run,
}
use badgerx.CompactStatus.Release.{delete_run_at, add_size}

-- Removing one range leaves another in place.
remove_range-keeps :
    (rs : List KeyRange) (r s : KeyRange)
    → equals s r ≡ false
    → KeyRange.overlaps_with s s ≡ true
    → overlaps_any (remove_range (rs ++ (s ∷ [])) r).0 s ≡ true
unfolding remove_range overlaps_any
remove_range-keeps [] r s n o = ground (arith)
remove_range-keeps (x ∷ rs) r s n o = ground (arith, remove_range-keeps rs r s n o)

-- A level that runs its own compaction, after it was stored and deleted.
abbrev same_level : CompactDef → LevelCompactStatus → LevelCompactStatus
same_level cd l =
    (release_this cd (add_size cd (add_range (add_range l cd.this_range) cd.next_range))).0

same_level-overlaps :
    (cd : CompactDef) (l : LevelCompactStatus)
    → IsProper cd.next_range
    → equals cd.next_range cd.this_range ≡ false
    → level_overlaps_with (same_level cd l) cd.next_range ≡ true
unfolding level_overlaps_with level_remove
same_level-overlaps cd l q n = ground (
  arith,
  remove_range-keeps (l.ranges ++ (cd.this_range ∷ [])) cd.this_range cd.next_range n
      (overlaps_with_self cd.next_range q),
)

stored_same :
    (cs : CompactStatus) (cd : CompactDef) (l : LevelCompactStatus)
    → cd.this_level ≡ cd.next_level
    → get_elem? cs.levels cd.this_level ≡ some l
    → get_elem? (store_run cs cd).levels cd.this_level
      ≡ some (add_size cd (add_range (add_range l cd.this_range) cd.next_range))
unfolding store_run
stored_same cs cd l e el = rw (← e) (
    get_elem?-update_level_self cd.this_level _ _ (
      get_elem?-update_level_self cd.this_level _ _
        (get_elem?-update_level_self cd.this_level _ cs.levels el)))

delete_run_same :
    (cs cs' : CompactStatus) (cd : CompactDef) (l : LevelCompactStatus)
    → cd.this_level ≡ cd.next_level
    → get_elem? cs.levels cd.this_level ≡ some l
    → delete_run cs cd ≡ some cs'
    → cs'.levels ≡ update_level cd.this_level (λ l. (release_this cd l).0) cs.levels
unfolding release_next finish
delete_run_same cs cs' cd l e el h =
    let k = sym (delete_run_at cs cd l l el (rw (← e) el)) ∙ h in ground (arith)

overlaps_with_at :
    (cs : CompactStatus) (i : ℕ) (l : LevelCompactStatus) (r : KeyRange)
    → get_elem? cs.levels i ≡ some l
    → level_overlaps_with l r ≡ true
    → overlaps_with cs i r ≡ some true
unfolding overlaps_with
overlaps_with_at cs i l r e o = ground arith

-- Within one level, as the compactions of the last level run, the next range is left behind: once
-- the run was accepted and deleted, the level still overlaps its next range, where that is proper
-- and differs from this range.
pub delete_run_leak :
    (cs cs' cs'' : CompactStatus) (cd : CompactDef)
    → cd.this_level ≡ cd.next_level
    → IsProper cd.next_range
    → equals cd.next_range cd.this_range ≡ false
    → compare_and_add cs cd ≡ some (true, cs')
    → delete_run cs' cd ≡ some cs''
    → overlaps_with cs'' cd.next_level cd.next_range ≡ some true
unfolding Outcome
delete_run_leak cs cs' cs'' cd e q n a h =
    let (eq, free) = compare_and_add-Outcome cs cd true cs' a in
    let stored = stored_same cs cd free.this e free.has_this in
    let levels = delete_run_same (store_run cs cd) cs'' cd _ e stored (rw eq at h) in
    overlaps_with_at cs'' cd.next_level (same_level cd free.this) cd.next_range
      (rw (← e, levels)
        (get_elem?-update_level_self cd.this_level (λ l. (release_this cd l).0) _ stored))
      (same_level-overlaps cd free.this q n)
