-- ===== src/Deferred/Sound.antt =====
-- The state of a thread within `__ota_free`, and what it releases first.
use budalloc.Prelude.{
  ℕ, ◌+◌, ◌-◌, ◌/◌, ◌%◌, ◌^◌, ◌<◌, ◌≡◌, refl, true, false, List, [], ◌==◌, arith, Bool-cases, inl,
  inr,
}
use budalloc.FreeBatch.{pages, Batch, adaptive_window_resize}
use budalloc.FreeBatch.Flush.{covers, pending}
use budalloc.FreeBatch.Pending.{IsBatch}
use budalloc.Deferred.{Canon, Thread, release_deferred, try_deferred_free}
use budalloc.Deferred.Quiet.{put_at, unmapped_at, Ordered, Quiet, release_deferred-Quiet}

abbrev pub NonePending : Batch → Type 0
NonePending b = (p : ℕ) → pending p b ≡ 0

-- Within `__ota_free`: what was put is unmapped or pending, a batch that is said to be empty is so, the
-- version fits in its three bits, and the order was kept.
pub record IsSound (s : Thread) : Type 0 where
  pub batch_ok : IsBatch s.batch
  pub account : (p : ℕ) → put_at p s.canon.events ≡ unmapped_at p s.canon.events + pending p s.batch
  pub emptied : s.batch.buf_empty ≡ true → (s.batch.cur ≡ pages 0 0) × (s.batch.older ≡ [])
  pub version_low : s.batch.buf_version < 8
  pub ordered : Ordered s.canon.events

-- Between the calls, nothing is pending either if the version is not that of the last free.
abbrev pub IsIdle : Thread → Type 0
IsIdle s = IsSound s × ((s.prev_version == s.batch.buf_version) ≡ false → NonePending s.batch)

pub none_of_empty : (b : Batch) → b.cur ≡ pages 0 0 → b.older ≡ [] → NonePending b
unfolding covers
none_of_empty b c o p = rw (c, o) (ground arith)

pub IsSound-Quiet : (s : Thread) → IsSound s → NonePending s.batch → Quiet s.canon
IsSound-Quiet s i gone = (λ p. omega (arith, i.account p, gone p), i.ordered)

-- With nothing pending, anything quiet may follow.
pub Quiet-IsSound :
    (s : Thread) (c : Canon) (sm la : List ℕ)
    → IsSound s
    → NonePending s.batch
    → Quiet c
    → IsSound (record s { small = sm; large = la; canon = c })
Quiet-IsSound s c sm la i gone q = record {
  batch_ok = i.batch_ok;
  account = λ p. omega (arith, q.0 p, gone p);
  emptied = i.emptied;
  version_low = i.version_low;
  ordered = q.1;
}

pub adaptive_window_resize-same :
    (now : ℕ) (b : Batch)
    → ((adaptive_window_resize now b).buf_empty ≡ b.buf_empty)
      × ((adaptive_window_resize now b).cur ≡ b.cur)
      × ((adaptive_window_resize now b).older ≡ b.older)
      × ((adaptive_window_resize now b).buf_version ≡ b.buf_version)
unfolding adaptive_window_resize
adaptive_window_resize-same now b = elim (Bool-cases ((now - b.msecs) / 100 % 2 ^ 32 == 0)) [
  | inl e ↦ rw e (refl, refl, refl, refl)
  | inr e ↦ rw e (refl, refl, refl, refl)
]

module _ (hash : ℕ → ℕ) where
  pub release_deferred-IsSound :
      (s : Thread) → IsSound s → NonePending s.batch → IsSound (release_deferred hash s)
  unfolding release_deferred
  release_deferred-IsSound s i gone =
      Quiet-IsSound s (release_deferred hash s).canon [] [] i gone
        (release_deferred-Quiet hash s (IsSound-Quiet s i gone))

  pub try_deferred_free-IsSound : (s : Thread) → IsIdle s → IsSound (try_deferred_free hash s)
  unfolding try_deferred_free
  try_deferred_free-IsSound s (i, passed) =
      elim (Bool-cases (s.prev_version == s.batch.buf_version)) [
        | inr e ↦ rw e (release_deferred-IsSound s i (passed e))
        | inl e ↦ rw e (elim (Bool-cases s.batch.buf_empty) [
          | inl f ↦
              simp f (
                release_deferred-IsSound s i
                  (none_of_empty s.batch (i.emptied f).0 (i.emptied f).1))
          | inr f ↦ simp f i
        ])
      ]
