-- ===== src/PageFault/Run.antt =====
-- A run of pages with one canonical page, and what a round does to it.
use Prim.Native.Nat.{bit_or}
use budalloc.Prelude.{
  ℕ, zero, suc, ◌+◌, ◌*◌, ◌^◌, ◌<◌, ◌≤◌, ◌≡◌, ◌≢◌, refl, sym, Bool, true, false, Option, none, some,
  List, [], ◌∷◌, ltb, ◌==◌, if◌then◌else◌, arith, Bool-cases, inl, inr,
}
use budalloc.FreeBatch.{Pages}
use budalloc.PageFault.{Mapped, canon_page_of, is_mapped, Round, Ctx, map_run, join_run}

-- A word in use that is not mapped yet, for a canonical page.
abbrev pub IsFor : ℕ → Option ℕ → Type 0
IsFor canon none = ⊥
IsFor canon (some w) = (w ≢ 0) × (is_mapped w ≡ false) × (canon_page_of w ≡ canon)

-- `w` is the word of the faulting page, at `vaddr`.
module _ (vaddr w : ℕ) (rounds : ℕ → Round) where
  -- The words of the pages from the faulting one on.
  abbrev pub word_at : ℕ → Option ℕ
  word_at zero = some w
  word_at (suc k) = (rounds k).entry

  abbrev pub AllFor : ℕ → ℕ → ℕ → Type 0
  AllFor i n canon = (j : ℕ) → j < n → IsFor canon (word_at (i + j))

  -- The calls, the last first, map `m` pages from the faulting one on: they follow one another, and
  -- the words of all pages of a call are for the canonical page that it names.
  abbrev pub Tiled : List Mapped → ℕ → Type 0
  Tiled [] m = m ≡ 0
  Tiled (r ∷ l) m =
      (i : ℕ) × (n : ℕ) × Tiled l i
      × (m ≡ i + n)
      × (0 < n)
      × (r.vaddr ≡ vaddr + i * 4096)
      × (r.len ≡ n * 4096)
      × AllFor i n r.canon

  -- The pages before `k` are mapped but for the run, which has `size` pages from the page `start` on.
  pub record Run (k : ℕ) (c : Ctx) : Type 0 where
    pub start : ℕ
    pub size : ℕ
    pub before : Tiled c.calls start
    pub total : start + size ≡ k
    pub some_page : 0 < size
    pub page : c.alias_page ≡ vaddr + start * 4096
    pub bytes : c.alias_len ≡ size * 4096
    pub same : AllFor start size c.canon_page

  -- Behind the last round something is mapped.
  abbrev pub Running : ℕ → Ctx → Type 0
  Running k c = (r : Run k c) × (k ≡ 257 → 0 < r.start)

  abbrev pub Ended : Ctx → Type 0
  Ended c = (m : ℕ) × (0 < m) × (m ≤ 257) × Tiled c.calls m

  abbrev pub Outcome : ℕ → Ctx × Bool → Type 0
  Outcome k (c, true) = Running k c
  Outcome k (c, false) = Ended c

module _ (unset : Pages → ℕ) (found got : ℕ → Bool) (vaddr w : ℕ) (rounds : ℕ → Round) where
  module _ (fits : vaddr + 257 * 4096 < 2 ^ 64) where
    pub map_run-Outcome :
        (k cur : ℕ) (c : Ctx)
        → k ≤ 257
        → Run vaddr w rounds k c
        → (ltb 1 c.window_size ≡ true → IsFor cur (word_at vaddr w rounds k))
        → Outcome vaddr w rounds (suc k) (map_run unset found got cur c)
    unfolding map_run
    map_run-Outcome k cur c small r more = elim (Bool-cases (ltb 1 c.window_size)) [
      | inl e ↦ rw e (
        record {
          start = k;
          size = 1;
          before = (r.start, r.size, r.before, sym r.total, r.some_page, r.page, r.bytes, r.same);
          total = omega arith;
          some_page = omega arith;
          page = omega (arith, r.total, r.page, r.bytes);
          bytes = refl;
          same = λ j h. at k cur j h (more e);
        },
        λ f. omega (arith, r.total, r.some_page),
      )
      | inr e ↦ rw e (
        k,
        omega (arith, r.total, r.some_page),
        small,
        (r.start, r.size, r.before, sym r.total, r.some_page, r.page, r.bytes, r.same),
      )
    ]
      where
        at :
            (k cur j : ℕ)
            → j < 1
            → IsFor cur (word_at vaddr w rounds k)
            → IsFor cur (word_at vaddr w rounds (k + j))
        at k cur j h i = let e : k + j ≡ k = omega arith in rw e i

    -- The page `k` joins the run.
    longer_run :
        (k v : ℕ) (c : Ctx)
        → (r : Run vaddr w rounds k c) → canon_page_of v ≡ c.canon_page
        → word_at vaddr w rounds k ≡ some v
        → v ≢ 0
        → is_mapped v ≡ false
        → AllFor vaddr w rounds r.start (suc r.size) c.canon_page
    longer_run k v c r e at_k pos unmapped j h = elim (Bool-cases (j == r.size)) [
      | inl f ↦
          let here : r.start + j ≡ k = ground (arith, f, r.total) in
          rw (here, at_k) (pos, unmapped, e)
      | inr f ↦ r.same j (ground (arith, f, h))
    ]

    pub join_run-Outcome :
        (k v : ℕ) (last : Bool) (c : Ctx)
        → k < 257
        → Run vaddr w rounds k c
        → word_at vaddr w rounds k ≡ some v
        → v ≢ 0
        → is_mapped v ≡ false
        → (last ≡ false → suc k ≢ 257)
        → Outcome vaddr w rounds (suc k) (join_run unset found got last v c)
    unfolding join_run map_run
    join_run-Outcome k v last c small r at_k pos unmapped late =
        elim (Bool-cases (canon_page_of v == c.canon_page)) [
          | inl e ↦
              let same = longer_run k v c r (ground (arith, e)) at_k pos unmapped in
              rw e (go last late same)
          | inr e ↦
              let f : IsFor (canon_page_of v) (word_at vaddr w rounds k) =
                rw at_k (pos, unmapped, refl) in
              rw e (map_run-Outcome k (canon_page_of v) c (omega arith) r (λ t. f))
        ]
      where
        go :
            (last : Bool)
            → (last ≡ false → suc k ≢ 257)
            → AllFor vaddr w rounds r.start (suc r.size) c.canon_page
            → Outcome vaddr w rounds (suc k) (
                if last
                then map_run unset found got (canon_page_of v) (record c {
                  marks = bit_or v 1 ∷ c.marks;
                  alias_len = c.alias_len + 4096;
                  window_size = 0;
                })
                else (
                  record c { marks = bit_or v 1 ∷ c.marks; alias_len = c.alias_len + 4096 },
                  true,
                ))
        go true late same = (
          suc k,
          omega arith,
          omega arith,
          (
            r.start,
            suc r.size,
            r.before,
            omega (arith, r.total),
            omega arith,
            r.page,
            omega (arith, r.bytes),
            same,
          ),
        )
        go false late same = (
          record {
            start = r.start;
            size = suc r.size;
            before = r.before;
            total = omega (arith, r.total);
            some_page = omega arith;
            page = r.page;
            bytes = omega (arith, r.bytes);
            same = same;
          },
          λ e. absurd (late refl e),
        )
