-- ===== src/WaterMark/Notify.antt =====
-- Waking the waiters: y/watermark.go. The code has two loops for it, and both wake the same.
use badgerx.Prelude.{
  ℕ, zero, suc, ◌+◌, ◌-◌, ◌%◌, ◌^◌, ◌≤◌, ◌<◌, ◌≡◌, refl, true, none, some, List, [], ◌∷◌, ◌++◌,
  arith, nat_eq, All, All-map, has, has-append, length, leb, ◌==◌, Bool-cases, Option-cases, inl,
  inr,
}
use badgerx.Prelude.Maps.{lookup, delete, lookup-delete}
use badgerx.WaterMark.{notify_range, notify_all, notify, Waiters}

-- Every waiter waits for an index above `until`.
abbrev pub Above : ℕ → List (ℕ × List ℕ) → Type 0
Above until ws = All (λ w. until < w.0) ws

-- The channel waits for the index.
abbrev pub Waits : List (ℕ × List ℕ) → ℕ → ℕ → Type 0
Waits ws idx ch = (chs : List ℕ) × (lookup idx ws ≡ some chs) × (has ch chs ≡ true)

-- Waking from `ws` up to `until`: who waited up to there is closed, nobody is left that did, and
-- who waits for more still waits; closed channels stay closed.
pub record IsWoken (until : ℕ) (ws : List (ℕ × List ℕ)) (closed : List ℕ) (r : Waiters)
    : Type 0 where
  pub above : Above until r.0
  pub woken : (idx ch : ℕ) → Waits ws idx ch → idx ≤ until → has ch r.1 ≡ true
  pub kept : (idx : ℕ) → until < idx → lookup idx r.0 ≡ lookup idx ws
  pub closed_kept : (ch : ℕ) → has ch closed ≡ true → has ch r.1 ≡ true

absent-Above :
    (idx : ℕ) (ws : List (ℕ × List ℕ))
    → lookup idx ws ≡ none
    → All (λ w. idx ≤ w.0) ws
    → Above idx ws
unfolding lookup
absent-Above idx [] e h = tt
absent-Above idx ((i, chs) ∷ ws) e (h, hs) = (ground (arith), absent-Above idx ws (ground arith) hs)

delete-Above :
    (idx : ℕ) (ws : List (ℕ × List ℕ)) → All (λ w. idx ≤ w.0) ws → Above idx (delete idx ws)
unfolding delete
delete-Above idx [] h = tt
delete-Above idx ((i, chs) ∷ ws) (h, hs) = elim (Bool-cases (i == idx)) [
  | inl e ↦ rw e (delete-Above idx ws hs)
  | inr e ↦ rw e (ground arith, delete-Above idx ws hs)
]

pub Above-lookup :
    (until idx : ℕ) (ws : List (ℕ × List ℕ)) (chs : List ℕ)
    → Above until ws
    → lookup idx ws ≡ some chs
    → until < idx
unfolding lookup
Above-lookup until idx [] chs h e = absurd (cc)
Above-lookup until idx ((i, cs) ∷ ws) chs (h, hs) e =
    ground (arith, Above-lookup until idx ws chs hs)

-- One index of the counted loop.
range_none :
    (rounds idx : ℕ) (ws : List (ℕ × List ℕ)) (closed : List ℕ)
    → lookup idx ws ≡ none
    → notify_range (suc rounds) idx ws closed ≡ notify_range rounds (idx + 1) ws closed
unfolding notify_range
range_none rounds idx ws closed e = ground arith

range_some :
    (rounds idx : ℕ) (ws : List (ℕ × List ℕ)) (closed chs : List ℕ)
    → lookup idx ws ≡ some chs
    → notify_range (suc rounds) idx ws closed
      ≡ notify_range rounds (idx + 1) (delete idx ws) (closed ++ chs)
unfolding notify_range
range_some rounds idx ws closed chs e = ground arith

-- Waking one index and then the rest.
woken_step :
    (from until : ℕ) (ws : List (ℕ × List ℕ)) (closed chs : List ℕ) (r : Waiters)
    → lookup (from + 1) ws ≡ some chs
    → IsWoken until (delete (from + 1) ws) (closed ++ chs) r
    → (idx ch : ℕ) → Waits ws idx ch
    → idx ≤ until
    → has ch r.1 ≡ true
woken_step from until ws closed chs r e ih idx ch (cs, l, m) le =
    elim (Bool-cases (from + 1 == idx)) [
      | inl q ↦ ih.closed_kept ch (ground (arith, has-append ch closed chs))
      | inr q ↦ ih.woken idx ch (cs, ground (arith, lookup-delete (from + 1) idx ws), m) le
    ]

pub notify_range-IsWoken :
    (rounds from until : ℕ) (ws : List (ℕ × List ℕ)) (closed : List ℕ)
    → from + rounds ≡ until
    → Above from ws
    → IsWoken until ws closed (notify_range rounds (from + 1) ws closed)
notify_range-IsWoken zero from until ws closed sum h =
    unfold notify_range in
    record {
      above = All-map (λ w. from < w.0) (λ w. until < w.0) (λ w q. omega arith) ws h;
      woken = λ idx ch w le. absurd (omega (arith, Above-lookup from idx ws w.0 h w.1));
      kept = λ idx le. refl;
      closed_kept = λ ch e. e;
    }
notify_range-IsWoken (suc rounds) from until ws closed sum h =
    let reached = All-map (λ w. from < w.0) (λ w. from + 1 ≤ w.0) (λ w q. omega arith) ws h in
    elim (Option-cases (lookup (from + 1) ws)) [
      | inl e ↦ rw (range_none rounds (from + 1) ws closed e) (
          notify_range-IsWoken rounds (from + 1) until ws closed (omega arith)
            (absent-Above (from + 1) ws e reached))
      | inr (chs, e) ↦
          let ih =
            notify_range-IsWoken rounds (from + 1) until (delete (from + 1) ws) (closed ++ chs)
              (omega arith) (delete-Above (from + 1) ws reached) in
          rw (range_some rounds (from + 1) ws closed chs e) (record {
            above = ih.above;
            woken = woken_step from until ws closed chs _ e ih;
            kept = λ idx le. ground (arith, ih.kept idx, lookup-delete (from + 1) idx ws);
            closed_kept = λ ch q. ih.closed_kept ch (ground (arith, has-append ch closed chs));
          })
    ]

module _ (until : ℕ) where
  all-Above :
      (ws : List (ℕ × List ℕ)) (closed : List ℕ) → Above until (notify_all until ws closed).0
  unfolding notify_all
  all-Above [] closed = tt
  all-Above ((i, chs) ∷ ws) closed = elim (Bool-cases (leb i until)) [
    | inl e ↦ rw e (all-Above ws (closed ++ chs))
    | inr e ↦ rw e (ground arith, all-Above ws closed)
  ]

  all_kept :
      (ws : List (ℕ × List ℕ)) (closed : List ℕ) (idx : ℕ)
      → until < idx
      → lookup idx (notify_all until ws closed).0 ≡ lookup idx ws
  unfolding notify_all lookup
  all_kept [] closed idx h = refl
  all_kept ((i, chs) ∷ ws) closed idx h =
      ground (arith, all_kept ws (closed ++ chs) idx h, all_kept ws closed idx h)

  all_closed :
      (ws : List (ℕ × List ℕ)) (closed : List ℕ) (ch : ℕ)
      → has ch closed ≡ true
      → has ch (notify_all until ws closed).1 ≡ true
  unfolding notify_all
  all_closed [] closed ch h = h
  all_closed ((i, chs) ∷ ws) closed ch h =
      ground
        (arith, all_closed ws (closed ++ chs) ch, all_closed ws closed ch, has-append ch closed chs)

  all_woken :
      (ws : List (ℕ × List ℕ)) (closed : List ℕ) (idx ch : ℕ) (cs : List ℕ)
      → lookup idx ws ≡ some cs
      → has ch cs ≡ true
      → idx ≤ until
      → has ch (notify_all until ws closed).1 ≡ true
  unfolding notify_all lookup
  all_woken [] closed idx ch cs l m h = absurd (cc)
  all_woken ((i, chs) ∷ ws) closed idx ch cs l m h = ground (
    arith,
    all_woken ws (closed ++ chs) idx ch cs,
    all_woken ws closed idx ch cs,
    has-append ch closed chs,
    all_closed ws (closed ++ chs) ch,
  )

  pub notify_all-IsWoken :
      (ws : List (ℕ × List ℕ)) (closed : List ℕ)
      → IsWoken until ws closed (notify_all until ws closed)
  notify_all-IsWoken ws closed = record {
    above = all-Above ws closed;
    woken = λ idx ch w. all_woken ws closed idx ch w.0 w.1 w.2;
    kept = all_kept ws closed;
    closed_kept = all_closed ws closed;
  }

-- Whichever loop the code picks, the waiters up to `until` are woken and the others left.
pub notify-IsWoken :
    (from until : ℕ) (ws : List (ℕ × List ℕ)) (closed : List ℕ)
    → from ≤ until
    → Above from ws
    → IsWoken until ws closed (notify from until ws closed)
unfolding notify
notify-IsWoken from until ws closed le h =
    elim (Bool-cases (leb ((until + 2 ^ 64 - from) % 2 ^ 64) (length ws))) [
      | inl e ↦ rw e (notify_range-IsWoken (until - from) from until ws closed (omega arith) h)
      | inr e ↦ rw e (notify_all-IsWoken until ws closed)
    ]
