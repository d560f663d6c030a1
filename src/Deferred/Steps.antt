-- ===== src/Deferred/Steps.antt =====
-- Each step of `__ota_free` keeps the state of the thread sound, where no buffer is full.
use budalloc.Prelude.{
  ℕ, suc, ◌+◌, ◌^◌, ◌<◌, ◌≡◌, refl, Bool, true, false, ◌&&◌, ◌||◌, Option, none, some, List, [],
  ◌∷◌, ltb, ◌==◌, if◌then◌else◌, arith, length, Bool-cases, inl, inr,
}
use budalloc.FreeBatch.{
  Pages, pages, Batch, join_one_of, with_entries, push, push_or_join, add_pages, flush,
}
use budalloc.FreeBatch.Flush.{covers, Flushed, flush_lem}
use budalloc.FreeBatch.Conserve.{Freed, add_pages_lem, Flushed-IsBatch}
use budalloc.Deferred.{
  Canon, Thread, canonical_free, canonical_delayed_free, release_deferred, flush_thread, see_put,
  see_unmapped, put_pages, flush_if_more, reserve, release_all, defer_canonical, keep_canonical,
  delays, reuses, meets_full,
}
use budalloc.Deferred.Quiet.{
  Quiet, canonical_free-Quiet, canonical_delayed_free-Quiet, release_deferred-Quiet,
  see_unmapped_lem,
}
use budalloc.Deferred.Sound.{NonePending, IsSound, none_of_empty, IsSound-Quiet, Quiet-IsSound}

-- What an addition that meets no full buffer leaves: nothing is unmapped, the batch is not said to be
-- empty, and its version stays.
abbrev pub AddedQuietly : Batch → Option (Batch × List Pages) → Type 0
AddedQuietly b none = ⊥
AddedQuietly b (some (b', calls)) =
    (calls ≡ []) × (b'.buf_empty ≡ false) × (b'.buf_version ≡ b.buf_version)

module _ (unset : Pages → ℕ) (new : Pages) (b : Batch) where
  push_or_join-quiet :
      (o : Option (List Pages))
      → b.buf_empty ≡ false
      → ((suc (length b.older) == 256) && elim o [ none ↦ true | some l ↦ false ]) ≡ false
      → AddedQuietly b (push_or_join unset true new b o)
  unfolding push_or_join push with_entries
  push_or_join-quiet none e full = elim (Bool-cases (suc (length b.older) == 256)) [
    | inl f ↦ absurd (ground (arith, f, full))
    | inr f ↦ rw f (refl, e, refl)
  ]
  push_or_join-quiet (some []) e full = (refl, e, refl)
  push_or_join-quiet (some (r ∷ l)) e full = (refl, e, refl)

  pub add_pages-quiet :
      (b.buf_empty ≡ true → (b.cur ≡ pages 0 0) × (b.older ≡ []))
      → meets_full new b ≡ false
      → AddedQuietly b (add_pages unset true new b)
  unfolding add_pages meets_full
  add_pages-quiet emptied full = elim (Bool-cases (b.cur.start == 0)) [
    | inl e ↦ rw e (refl, refl, refl)
    | inr e ↦ rw e (elim (Bool-cases b.buf_empty) [
      | inl f ↦ absurd (let z : (b.cur.start == 0) ≡ true = rw (emptied f).0 refl in cc)
      | inr f ↦ push_or_join-quiet (join_one_of 3 new (b.cur ∷ b.older)) f (ground (arith, e, full))
    ])
  ]

module _ (hash : ℕ → ℕ) (tid : ℕ) (unset : Pages → ℕ) (succeeds : (r : Pages) → unset r ≡ 0) where
  pub flush_thread-IsSound :
      (s : Thread)
      → IsSound s
      → IsSound (flush_thread hash tid unset true s)
        × NonePending (flush_thread hash tid unset true s).batch
  unfolding flush_thread
  flush_thread-IsSound s i = go (flush unset true s.batch) (flush_lem unset succeeds s.batch)
    where
      go :
          (x : Batch × List Pages × Bool)
          → Flushed unset succeeds s.batch x
          → IsSound (record s { batch = x.0; canon = see_unmapped x.1 s.canon }) × NonePending x.0
      go (b, calls, ok) f =
          let (ib, gone) = Flushed-IsBatch unset succeeds s.batch b calls ok i.batch_ok f in
          let (u, m, o) = see_unmapped_lem calls s.canon in
          (
            record {
              batch_ok = ib;
              account = λ p. omega (arith, u p, m p, f.7 p, i.account p, gone p);
              emptied = λ e. (f.1, f.2);
              version_low = omega (arith, f.5);
              ordered = o i.ordered;
            },
            gone,
          )

  pub flush_if_more-IsSound :
      (s : Thread) → IsSound s → IsSound (flush_if_more hash tid unset true s)
  unfolding flush_if_more
  flush_if_more-IsSound s i = elim (Bool-cases (ltb s.batch.window_size s.batch.buf_cnt)) [
    | inl e ↦ rw e (flush_thread-IsSound s i).0
    | inr e ↦ rw e i
  ]

  -- The flush of a batch, unless it is said to be empty.
  emptied_thread :
      (s : Thread)
      → IsSound s
      → IsSound (if s.batch.buf_empty then s else flush_thread hash tid unset true s)
        × NonePending (if s.batch.buf_empty then s else flush_thread hash tid unset true s).batch
  emptied_thread s i = elim (Bool-cases s.batch.buf_empty) [
    | inl e ↦ simp e (i, none_of_empty s.batch (i.emptied e).0 (i.emptied e).1)
    | inr e ↦ simp e (flush_thread-IsSound s i)
  ]

  and_last-Quiet :
      (index a : ℕ) (c : Canon)
      → Quiet c
      → Quiet (if delays index then canonical_delayed_free hash a c else canonical_free a c)
  and_last-Quiet index a c q = elim (Bool-cases (delays index)) [
    | inl e ↦ rw e (canonical_delayed_free-Quiet hash a c q)
    | inr e ↦ rw e (canonical_free-Quiet a c q)
  ]

  release_all-IsSound :
      (index a : ℕ) (s : Thread) → IsSound s → IsSound (release_all hash tid unset true index a s)
  unfolding release_all release_deferred
  release_all-IsSound index a s i =
      let s' : Thread = if s.batch.buf_empty then s else flush_thread hash tid unset true s in
      let (i', gone) = emptied_thread s i in
      let q = release_deferred-Quiet hash s' (IsSound-Quiet s' i' gone) in
      Quiet-IsSound s'
        (if delays index
          then canonical_delayed_free hash a (release_deferred hash s').canon
          else canonical_free a (release_deferred hash s').canon)
        [] [] i' gone (and_last-Quiet index a (release_deferred hash s').canon q)

  pub keep_canonical-IsSound :
      (index alloc_size version a : ℕ) (s : Thread)
      → IsSound s
      → IsSound (keep_canonical hash tid unset true index alloc_size version a s)
  unfolding keep_canonical reserve defer_canonical
  keep_canonical-IsSound index alloc_size version a s i =
      elim (Bool-cases (
        reuses index alloc_size
        && ltb (length (s.reservations index).reused) (s.reservations index).cur_idx)) [
          | inl e ↦ rw e (record {
            batch_ok = i.batch_ok;
            account = i.account;
            emptied = i.emptied;
            version_low = i.version_low;
            ordered = i.ordered;
          })
          | inr e ↦ rw e (elim (Bool-cases (length s.small == 1024 || length s.large == 1024)) [
            | inl f ↦ rw f (release_all-IsSound index a s i)
            | inr f ↦ rw f (elim (Bool-cases (delays index)) [
              | inl g ↦ rw g (record {
                batch_ok = i.batch_ok;
                account = i.account;
                emptied = i.emptied;
                version_low = i.version_low;
                ordered = i.ordered;
              })
              | inr g ↦ rw g (record {
                batch_ok = i.batch_ok;
                account = i.account;
                emptied = i.emptied;
                version_low = i.version_low;
                ordered = i.ordered;
              })
            ])
          ])
        ]

  abbrev pub SoundOnce : Option (Thread × ℕ) → Type 0
  SoundOnce none = ⊥
  SoundOnce (some (s, version)) = IsSound s

  pub put_pages-IsSound :
      (new : Pages) (s : Thread)
      → 0 < new.start
      → new.start + new.len < 2 ^ 64
      → meets_full new s.batch ≡ false
      → IsSound s
      → SoundOnce (put_pages hash tid unset true new s)
  unfolding put_pages see_put covers
  put_pages-IsSound new s pos fits full i =
      go (add_pages unset true new s.batch)
        (add_pages_lem unset succeeds new pos fits s.batch i.batch_ok)
        (add_pages-quiet unset new s.batch i.emptied full)
    where
      go :
          (o : Option (Batch × List Pages))
          → Freed new s.batch o
          → AddedQuietly s.batch o
          → SoundOnce (elim o [
            | none ↦ none
            | some (b, calls) ↦ some (
                if meets_full new s.batch
                then (
                  see_put hash tid unset true new (
                      release_deferred hash
                        (record s { batch = b; canon = see_unmapped calls s.canon })),
                  b.buf_version,
                )
                else (
                  see_put hash tid unset true new (record s { batch = b }),
                  s.batch.buf_version,
                ))
          ])
      go none f q = absurd f
      go (some (b, calls)) f q = rw full (record {
        batch_ok = f.0;
        account =
            λ p. let z : covers p calls ≡ 0 = rw q.0 refl in omega (arith, z, f.1 p, i.account p);
        emptied = λ e. absurd (cc (q.1, e));
        version_low = omega (arith, q.2, i.version_low);
        ordered = i.ordered;
      })
