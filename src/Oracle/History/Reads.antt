-- ===== src/Oracle/History/Reads.antt =====
-- Steps that begin and end reads, and the cleanup, keep the oracle faithful to the history: txn.go.
use badgerx.Prelude.{
  ℕ, ◌+◌, ◌-◌, ◌%◌, ◌^◌, ◌≤◌, ◌<◌, ◌≡◌, refl, ap, ◌∙◌, some, nat_eq, arith, Bool-cases, inl, inr,
  ◌==◌,
}
use mathlib.Core.Path.{subst}
use badgerx.WaterMark
use badgerx.WaterMark.{WaterMark}
use badgerx.WaterMark.Steps.{Reach, Step}
use badgerx.WaterMark.Run.{receive_grows}
use badgerx.WaterMark.Below.{IsBelow, receive-IsBelow, begin-IsBelow, done-IsBelow}
use badgerx.Txn.{Txn}
use badgerx.Oracle.{
  Oracle, read_ts, done_read, keep_above, cleanup_committed_transactions, discard_at_or_below,
}
use badgerx.Oracle.Cleanup.{keep_above_twice}
use badgerx.Oracle.History.{System, IsFaithful}

-- The system with another read mark.
abbrev pub with_mark : System → WaterMark → System
with_mark s w = record s { oracle = record s.oracle { read_mark = w } }

with_mark-IsFaithful :
    (s : System) (w : WaterMark)
    → IsFaithful s
    → IsBelow s.oracle.next_txn_ts w
    → s.oracle.read_mark.done_until ≤ w.done_until
    → Reach WaterMark.init w
    → IsFaithful (with_mark s w)
with_mark-IsFaithful s w f b g r = record {
  unmanaged = f.unmanaged;
  detects = f.detects;
  remembers = f.remembers;
  past = f.past;
  below = b;
  cleaned = omega (arith, f.cleaned);
  marked = r;
  positive = f.positive;
  bounded = f.bounded;
}

pub reads-IsFaithful :
    (s : System) (ts : ℕ) (o : Oracle)
    → IsFaithful s
    → read_ts s.oracle ≡ some (ts, o)
    → IsFaithful (record s { oracle = o })
reads-IsFaithful s ts o f e =
    let n = s.oracle.next_txn_ts in
    let i = (n + 2 ^ 64 - 1) % 2 ^ 64 in
    let lt : i < n = omega (arith, f.positive, f.bounded) in
    let at : record s.oracle { read_mark = WaterMark.begin s.oracle.read_mark i } ≡ o =
      unfold read_ts in ground arith in
    subst (λ x. IsFaithful (record s { oracle = x })) at
      (with_mark-IsFaithful s _ f (begin-IsBelow n s.oracle.read_mark i lt f.below)
        (unfold WaterMark.begin in omega arith)
        (Reach.next f.marked (Step.begins s.oracle.read_mark i)))

pub ends-IsFaithful :
    (s : System) (t : Txn)
    → IsFaithful s
    → t.read_ts < s.oracle.next_txn_ts
    → IsFaithful (record s { oracle = (done_read s.oracle t).0 })
unfolding done_read
ends-IsFaithful s t f h = elim (Bool-cases t.done_read) [
  | inl e ↦ rw e f
  | inr e ↦ rw e (
      with_mark-IsFaithful s _ f (done-IsBelow _ s.oracle.read_mark t.read_ts h f.below)
        (unfold WaterMark.done in omega arith)
        (Reach.next f.marked (Step.ends s.oracle.read_mark t.read_ts)))
]

pub marks_read-IsFaithful :
    (s : System) (w : WaterMark)
    → IsFaithful s
    → WaterMark.receive s.oracle.read_mark ≡ some w
    → IsFaithful (with_mark s w)
marks_read-IsFaithful s w f e =
    with_mark-IsFaithful s w f (receive-IsBelow _ s.oracle.read_mark w f.below e)
      (receive_grows s.oracle.read_mark w f.marked e)
      (Reach.next f.marked (Step.receives s.oracle.read_mark w e))

-- A cleanup forgets what is not newer than the read mark.
abbrev cleaned_up : System → System
cleaned_up s = record s {
  oracle = record s.oracle {
    last_cleanup_ts = s.oracle.read_mark.done_until;
    committed_txns = keep_above s.oracle.read_mark.done_until s.oracle.committed_txns;
  };
}

cleaned_up-IsFaithful : (s : System) → IsFaithful s → IsFaithful (cleaned_up s)
cleaned_up-IsFaithful s f = record {
  unmanaged = f.unmanaged;
  detects = f.detects;
  remembers =
      ap (keep_above s.oracle.read_mark.done_until) f.remembers
      ∙ keep_above_twice _ _ s.log f.cleaned;
  past = f.past;
  below = f.below;
  cleaned = omega arith;
  marked = f.marked;
  positive = f.positive;
  bounded = f.bounded;
}

pub cleanup-IsFaithful :
    (s : System) (c : Oracle)
    → IsFaithful s
    → cleanup_committed_transactions s.oracle ≡ some c
    → IsFaithful (record s { oracle = c })
      × (c.next_txn_ts ≡ s.oracle.next_txn_ts)
      × (c.last_cleanup_ts < c.next_txn_ts)
cleanup-IsFaithful s c f e =
    elim (Bool-cases (s.oracle.read_mark.done_until == s.oracle.last_cleanup_ts)) [
      | inl q ↦
          let at : s.oracle ≡ c =
            unfold cleanup_committed_transactions discard_at_or_below in
            ground (arith, f.unmanaged, f.detects, f.cleaned) in
          subst
            (λ x.
              IsFaithful (record s { oracle = x })
              × (x.next_txn_ts ≡ s.oracle.next_txn_ts)
              × (x.last_cleanup_ts < x.next_txn_ts))
            at (f, refl, omega (arith, f.cleaned, f.below.mark))
      | inr q ↦
          let at : (cleaned_up s).oracle ≡ c =
            unfold cleanup_committed_transactions discard_at_or_below in
            ground (arith, f.unmanaged, f.detects, f.cleaned) in
          subst
            (λ x.
              IsFaithful (record s { oracle = x })
              × (x.next_txn_ts ≡ s.oracle.next_txn_ts)
              × (x.last_cleanup_ts < x.next_txn_ts))
            at (cleaned_up-IsFaithful s f, refl, f.below.mark)
    ]
