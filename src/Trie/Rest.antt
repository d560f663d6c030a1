-- ===== src/Trie/Rest.antt =====
-- A trie at rest, where no iterator is open, and the words that it gives to the pages.
use budalloc.Prelude.{
  ℕ, ◌≤◌, ◌<◌, ◌≡◌, ◌≢◌, ◌==◌, refl, sym, if◌then◌else◌, Bool, true, false, not, arith,
}
use budalloc.Trie.{
  Slot, empty, destroyed, node, Entry1, Entry2, Entry3, Trie, Indices, indices_of, set,
}
use budalloc.Trie.Tables.{set-at, set-get, tally}
use budalloc.Trie.Runs.{tree1, tree2, tree3}

abbrev pub live : {A : Type 0} → Slot A → Bool
live empty = false
live destroyed = false
live (node c l s) = true

abbrev pub nonzero : ℕ → Bool
nonzero w = not (w == 0)

-- A node is unlocked, its count lies between 1 and 512, no fewer of its entries are in use than its
-- count says, and each is at rest. `D` says whether the entry may be destroyed.
abbrev pub Rest : {A : Type 0} → Type 0 → (A → Bool) → (A → Type 0) → Slot A → Type 0
Rest D used P empty = Unit {0}
Rest D used P destroyed = D
Rest {A} D used P (node c l s) =
    (l ≡ false) × (0 < c) × (c ≤ 512) × (tally used 512 s ≤ c) × ((i : ℕ) → P (s i))

abbrev pub Rest1 : Entry1 → Type 0
Rest1 = Rest (Unit {0}) nonzero (λ w. Unit {0})

abbrev pub Rest2 : Entry2 → Type 0
Rest2 = Rest ⊥ live Rest1

abbrev pub Rest3 : Entry3 → Type 0
Rest3 = Rest ⊥ live Rest2

abbrev pub AtRest : Trie → Type 0
AtRest t = (i : ℕ) → Rest3 (t i)

abbrev pub below : {A : Type 0} → ℕ → (A → ℕ) → Slot A → ℕ
below i f empty = 0
below i f destroyed = 0
below i f (node c l s) = f (s i)

abbrev pub word1 : Indices → Entry1 → ℕ
word1 ix = below ix.i0 (λ w. w)

abbrev pub word2 : Indices → Entry2 → ℕ
word2 ix = below ix.i1 (word1 ix)

abbrev pub word3 : Indices → Entry3 → ℕ
word3 ix = below ix.i2 (word2 ix)

-- The word of a page: 0 where a node of its path is missing.
abbrev pub word : Trie → Indices → ℕ
word t ix = word3 ix (t ix.i3)

pub unused1 : (k : Indices) (x : Entry1) → live x ≡ false → word1 k x ≡ 0
unused1 k empty h = refl
unused1 k destroyed h = refl
unused1 k (node c l s) h = absurd (cc h)

pub unused2 : (k : Indices) (x : Entry2) → live x ≡ false → word2 k x ≡ 0
unused2 k empty h = refl
unused2 k destroyed h = refl
unused2 k (node c l s) h = absurd (cc h)

pub ne→==false : (a b : ℕ) → a ≢ b → (a == b) ≡ false
ne→==false a b h = ground arith

pub ne→nonzero : (a : ℕ) → a ≢ 0 → nonzero a ≡ true
ne→nonzero a h = ground arith

-- The indices of a page, but that of level 4.
abbrev pub InRange : Indices → Type 0
InRange k = (k.i0 < 512) × (k.i1 < 512) × (k.i2 < 512)

pub indices-InRange : (ptr : ℕ) → InRange (indices_of ptr)
indices-InRange ptr = (omega arith, omega arith, omega arith)

pub set-all :
    {A : Type 0} (P : A → Type 0) (s : ℕ → A) (i : ℕ) (v : A)
    → ((j : ℕ) → P (s j))
    → P v
    → (j : ℕ) → P (set s i v j)
set-all P s i v all new j = rw (set-at s i j v) (go (i == j))
  where
    go : (b : Bool) → P (if b then v else s j)
    go true = new
    go false = all j

-- How far the path of `ix` goes.
pub data Depth (ix : Indices) (t : Trie) : Type 0 where
  none3 : t ix.i3 ≡ empty → Depth ix t
  none2 :
      (c : ℕ) (s : ℕ → Entry2)
      → t ix.i3 ≡ node c false s
      → Rest3 (node c false s)
      → s ix.i2 ≡ empty
      → Depth ix t
  none1 :
      (c : ℕ) (s : ℕ → Entry2) (c' : ℕ) (s' : ℕ → Entry1)
      → t ix.i3 ≡ node c false s
      → Rest3 (node c false s)
      → s ix.i2 ≡ node c' false s'
      → Rest2 (node c' false s')
      → live (s' ix.i1) ≡ false
      → Depth ix t
  full :
      (c : ℕ) (s : ℕ → Entry2) (c' : ℕ) (s' : ℕ → Entry1) (c'' : ℕ) (s'' : ℕ → ℕ)
      → t ix.i3 ≡ node c false s
      → Rest3 (node c false s)
      → s ix.i2 ≡ node c' false s'
      → Rest2 (node c' false s')
      → s' ix.i1 ≡ node c'' false s''
      → Rest1 (node c'' false s'')
      → Depth ix t

module _ (ix : Indices) (t : Trie) where
  depth1 :
      (c : ℕ) (s : ℕ → Entry2) (c' : ℕ) (s' : ℕ → Entry1)
      → t ix.i3 ≡ node c false s
      → Rest3 (node c false s)
      → s ix.i2 ≡ node c' false s'
      → Rest2 (node c' false s')
      → (x : Entry1) → s' ix.i1 ≡ x
      → Rest1 x
      → Depth ix t
  depth1 c s c' s' e h e' h' empty e'' h'' = none1 c s c' s' e h e' h' (rw e'' refl)
  depth1 c s c' s' e h e' h' destroyed e'' h'' = none1 c s c' s' e h e' h' (rw e'' refl)
  depth1 c s c' s' e h e' h' (node c'' true s'') e'' h'' = absurd (cc h''.0)
  depth1 c s c' s' e h e' h' (node c'' false s'') e'' h'' = full c s c' s' c'' s'' e h e' h' e'' h''

  depth2 :
      (c : ℕ) (s : ℕ → Entry2)
      → t ix.i3 ≡ node c false s
      → Rest3 (node c false s)
      → (x : Entry2) → s ix.i2 ≡ x
      → Rest2 x
      → Depth ix t
  depth2 c s e h empty e' h' = none2 c s e h e'
  depth2 c s e h destroyed e' h' = absurd h'
  depth2 c s e h (node c' true s') e' h' = absurd (cc h'.0)
  depth2 c s e h (node c' false s') e' h' = depth1 c s c' s' e h e' h' (s' ix.i1) refl (h'.4 ix.i1)

  depth3 : (x : Entry3) → t ix.i3 ≡ x → Rest3 x → Depth ix t
  depth3 empty e h = none3 e
  depth3 destroyed e h = absurd h
  depth3 (node c true s) e h = absurd (cc h.0)
  depth3 (node c false s) e h = depth2 c s e h (s ix.i2) refl (h.4 ix.i2)

  pub AtRest-Depth : AtRest t → Depth ix t
  AtRest-Depth h = depth3 (t ix.i3) refl (h ix.i3)

  -- The path written out is the trie.
  pub tree3_lem : (x : Entry3) → t ix.i3 ≡ x → t ≡ tree3 ix t x
  tree3_lem x e = rw (← e) (sym (set-get t ix.i3))

  pub tree2_lem :
      (c : ℕ) (s : ℕ → Entry2) (x : Entry2)
      → t ix.i3 ≡ node c false s
      → s ix.i2 ≡ x
      → t ≡ tree2 ix t c s x
  tree2_lem c s x e e' = rw (← e', set-get s ix.i2) (tree3_lem (node c false s) e)

  pub tree1_lem :
      (c : ℕ) (s : ℕ → Entry2) (c' : ℕ) (s' : ℕ → Entry1) (x : Entry1)
      → t ix.i3 ≡ node c false s
      → s ix.i2 ≡ node c' false s'
      → s' ix.i1 ≡ x
      → t ≡ tree1 ix t c s c' s' x
  tree1_lem c s c' s' x e e' e'' =
      rw (← e'', set-get s' ix.i1) (tree2_lem c s (node c' false s') e e')

  pub word-none3 : t ix.i3 ≡ empty → word t ix ≡ 0
  word-none3 e = rw e refl

  module _ (c : ℕ) (s : ℕ → Entry2) (e : t ix.i3 ≡ node c false s) where
    pub word-none2 : s ix.i2 ≡ empty → word t ix ≡ 0
    word-none2 e' = rw (e, e') refl

    pub word-none1 :
        (c' : ℕ) (s' : ℕ → Entry1)
        → s ix.i2 ≡ node c' false s'
        → live (s' ix.i1) ≡ false
        → word t ix ≡ 0
    word-none1 c' s' e' dead = rw (e, e') (dead_word (s' ix.i1) dead)
      where
        dead_word : (x : Entry1) → live x ≡ false → word1 ix x ≡ 0
        dead_word empty d = refl
        dead_word destroyed d = refl
        dead_word (node c'' l s'') d = absurd (cc d)

    pub word-full :
        (c' : ℕ) (s' : ℕ → Entry1) (c'' : ℕ) (s'' : ℕ → ℕ)
        → s ix.i2 ≡ node c' false s'
        → s' ix.i1 ≡ node c'' false s''
        → word t ix ≡ s'' ix.i0
    word-full c' s' c'' s'' e' e'' = rw (e, e', e'') refl
