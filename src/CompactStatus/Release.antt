-- ===== src/CompactStatus/Release.antt =====
-- What `delete` gives back of what `compareAndAdd` took: compaction.go.
use badgerx.Prelude.{
  ℕ, zero, suc, ◌^◌, ◌<◌, ◌≡◌, ◌≢◌, ◌∙◌, sym, ap, refl, Bool, true, false, some, List, [], ◌∷◌,
  ◌++◌, arith, get_elem?, All, bytes_equal_iff, ◌&&◌,
}
use badgerx.Keys.Order.{compare_keys-flip}
use badgerx.KeyRange
use badgerx.KeyRange.{KeyRange, Contains, IsProper, equals, is_empty}
use badgerx.CompactStatus.Levels.{
  get_elem?-update_level_self, get_elem?-update_level_ne, update_level_same, update_level_comm,
  Fresh, delete_tables-insert_tables,
}
use badgerx.CompactStatus.Disjoint.{IsFree, Outcome, compare_and_add-Outcome, All-get_elem?}
use badgerx.CompactStatus.{
  LevelCompactStatus, CompactStatus, CompactDef, update_level, overlaps_any, level_overlaps_with,
  compare_and_add, store_run, add_range, add_int64, sub_int64, remove_range, level_remove,
  release_this, release_next, finish, delete_run,
}

pub equals-overlaps_with :
    (r s : KeyRange) → IsProper s → equals r s ≡ true → KeyRange.overlaps_with r s ≡ true
unfolding equals KeyRange.overlaps_with is_empty
equals-overlaps_with r s p h = ground (
  arith,
  bytes_equal_iff r.left s.left,
  bytes_equal_iff r.right s.right,
  p.present,
  p.ordered,
  compare_keys-flip s.left s.right,
)

pub equals_refl : (s : KeyRange) → equals s s ≡ true
unfolding equals
equals_refl s = ground (arith, bytes_equal_iff s.left s.left, bytes_equal_iff s.right s.right)

-- A range that overlaps none of the others is removed alone.
remove_range-snoc :
    (rs : List KeyRange) (s : KeyRange)
    → IsProper s
    → overlaps_any rs s ≡ false
    → remove_range (rs ++ (s ∷ [])) s ≡ (rs, true)
unfolding remove_range overlaps_any
remove_range-snoc [] s p e = ground (arith, equals_refl s)
remove_range-snoc (r ∷ rs) s p e =
    ground (arith, equals-overlaps_with r s p, remove_range-snoc rs s p)

sub-add_int64 : (d s : ℕ) → d < 2 ^ 64 → sub_int64 (add_int64 d s) s ≡ d
sub-add_int64 d s h = omega arith

pub update_level_compose :
    (i : ℕ) (f g : LevelCompactStatus → LevelCompactStatus) (ls : List LevelCompactStatus)
    → update_level i g (update_level i f ls) ≡ update_level i (λ l. g (f l)) ls
update_level_compose i f g [] = refl
update_level_compose zero f g (x ∷ ls) = refl
update_level_compose (suc i) f g (x ∷ ls) = ap (λ t. x ∷ t) (update_level_compose i f g ls)

abbrev pub add_size : CompactDef → LevelCompactStatus → LevelCompactStatus
add_size cd l = record l { del_size = add_int64 l.del_size cd.this_size }

pub release_this-add :
    (cd : CompactDef) (l : LevelCompactStatus)
    → IsProper cd.this_range
    → l.del_size < 2 ^ 64
    → level_overlaps_with l cd.this_range ≡ false
    → release_this cd (add_size cd (add_range l cd.this_range)) ≡ (l, true)
unfolding level_remove level_overlaps_with
release_this-add cd l p b h =
    ground
      (arith, remove_range-snoc l.ranges cd.this_range p, sub-add_int64 l.del_size cd.this_size)

release_next-add :
    (cd : CompactDef) (l : LevelCompactStatus)
    → IsProper cd.next_range
    → level_overlaps_with l cd.next_range ≡ false
    → level_remove (add_range l cd.next_range) cd.next_range ≡ (l, true)
unfolding level_remove level_overlaps_with
release_next-add cd l p h = ground (arith, remove_range-snoc l.ranges cd.next_range p)

-- The levels after the run was stored and released at two levels.
levels_back :
    (cd : CompactDef) (ls : List LevelCompactStatus) (this next : LevelCompactStatus)
    → cd.this_level ≢ cd.next_level
    → IsProper cd.this_range
    → IsProper cd.next_range
    → this.del_size < 2 ^ 64
    → get_elem? ls cd.this_level ≡ some this
    → get_elem? ls cd.next_level ≡ some next
    → level_overlaps_with this cd.this_range ≡ false
    → level_overlaps_with next cd.next_range ≡ false
    → update_level cd.next_level
        (λ l. (level_remove l cd.next_range).0)
        (update_level cd.this_level
          (λ l. (release_this cd l).0)
          (update_level cd.this_level (add_size cd) (
            update_level cd.next_level
              (λ l. add_range l cd.next_range)
              (update_level cd.this_level (λ l. add_range l cd.this_range) ls))))
      ≡ ls
levels_back cd ls this next d p q b et en ft fn =
    simp
      (update_level_comm cd.next_level cd.this_level _ _ _ (λ e. d (sym e)), update_level_compose)
      (rw
        (update_level_same cd.next_level
          (λ l. (level_remove (add_range l cd.next_range) cd.next_range).0) ls en
          (ap (λ (x : LevelCompactStatus × Bool). x.0) (release_next-add cd next q fn)))
        (update_level_same cd.this_level _ ls et
          (ap (λ (x : LevelCompactStatus × Bool). x.0) (release_this-add cd this p b ft))))

-- `delete_run` once its levels and tables are known.
pub delete_run_at :
    (cs : CompactStatus) (cd : CompactDef) (this next : LevelCompactStatus)
    → get_elem? cs.levels cd.this_level ≡ some this
    → get_elem? cs.levels cd.next_level ≡ some next
    → delete_run cs cd ≡ (
        let x =
          release_next
            (update_level cd.this_level (λ l. (release_this cd l).0) cs.levels)
            next
            cd
            (release_this cd this).1 in
        finish x.0 x.1 (cd.top ++ cd.bot) cs)
unfolding delete_run
delete_run_at cs cd this next et en = ground arith

-- The levels of a stored run, as `delete_run` finds them.
stored_this :
    (cs : CompactStatus) (cd : CompactDef) (this : LevelCompactStatus)
    → cd.this_level ≢ cd.next_level
    → get_elem? cs.levels cd.this_level ≡ some this
    → get_elem? (store_run cs cd).levels cd.this_level
      ≡ some (add_size cd (add_range this cd.this_range))
unfolding store_run
stored_this cs cd this d et = get_elem?-update_level_self cd.this_level _ _ (
    get_elem?-update_level_ne cd.next_level cd.this_level _ _ (λ e. d (sym e))
    ∙ get_elem?-update_level_self cd.this_level _ cs.levels et)

stored_next :
    (cs : CompactStatus) (cd : CompactDef) (next : LevelCompactStatus)
    → cd.this_level ≢ cd.next_level
    → get_elem? cs.levels cd.next_level ≡ some next
    → get_elem? (store_run cs cd).levels cd.next_level ≡ some (add_range next cd.next_range)
unfolding store_run
stored_next cs cd next d en =
    get_elem?-update_level_ne cd.this_level cd.next_level _ _ d
    ∙ get_elem?-update_level_self cd.next_level _ _
        (get_elem?-update_level_ne cd.this_level cd.next_level _ cs.levels d ∙ en)

pub finish_back :
    (cs : CompactStatus) (cd : CompactDef)
    → Fresh (cd.top ++ cd.bot) cs.tables
    → finish cs.levels true (cd.top ++ cd.bot) (store_run cs cd) ≡ some cs
unfolding finish store_run
finish_back cs cd f = rw (delete_tables-insert_tables (cd.top ++ cd.bot) cs.tables f, finish) refl

release_next_at :
    (cd : CompactDef) (ls : List LevelCompactStatus) (next : LevelCompactStatus) (found : Bool)
    → cd.this_level ≢ cd.next_level
    → IsProper cd.next_range
    → release_next ls next cd found ≡ (
      update_level cd.next_level (λ l. (level_remove l cd.next_range).0) ls,
      (level_remove next cd.next_range).1 && found,
    )
unfolding release_next
release_next_at cd ls next found d p = ground (arith, p.present)

module _ (cs : CompactStatus) (cd : CompactDef) (d : cd.this_level ≢ cd.next_level)
    (p : IsProper cd.this_range) (q : IsProper cd.next_range)
    (b : All (λ l. l.del_size < 2 ^ 64) cs.levels) (f : Fresh (cd.top ++ cd.bot) cs.tables)
    (free : IsFree cs cd) where
  released :
      release_next
        (update_level cd.this_level (λ l. (release_this cd l).0) (store_run cs cd).levels)
        (add_range free.next cd.next_range)
        cd
        (release_this cd (add_size cd (add_range free.this cd.this_range))).1
      ≡ (cs.levels, true)
  unfolding store_run
  released =
      let small =
        All-get_elem? (λ l. l.del_size < 2 ^ 64) cd.this_level cs.levels free.has_this b in
      release_next_at cd _ (add_range free.next cd.next_range) _ d q
      ∙ rw
          (
            levels_back cd cs.levels free.this free.next d p q small free.has_this free.has_next
                free.this_free free.next_free,
            release_next-add cd free.next q free.next_free,
            release_this-add cd free.this p small free.this_free,
          )
          refl

  delete_run-store_run : delete_run (store_run cs cd) cd ≡ some cs
  delete_run-store_run =
      delete_run_at (store_run cs cd) cd _ _ (stored_this cs cd free.this d free.has_this)
        (stored_next cs cd free.next d free.has_next)
      ∙ rw released (finish_back cs cd f)

-- `delete` gives the status back as it was before `compareAndAdd` accepted the run, for a run
-- between two levels with proper ranges and tables that no other run holds, where the stored sizes
-- are int64 patterns.
pub delete_run-compare_and_add :
    (cs cs' : CompactStatus) (cd : CompactDef)
    → cd.this_level ≢ cd.next_level
    → IsProper cd.this_range
    → IsProper cd.next_range
    → All (λ l. l.del_size < 2 ^ 64) cs.levels
    → Fresh (cd.top ++ cd.bot) cs.tables
    → compare_and_add cs cd ≡ some (true, cs')
    → delete_run cs' cd ≡ some cs
unfolding Outcome
delete_run-compare_and_add cs cs' cd d p q b f e =
    let (eq, free) = compare_and_add-Outcome cs cd true cs' e in
    rw eq (delete_run-store_run cs cd d p q b f free)
