-- ===== src/Btree/Redirect/Levels.antt =====
-- kernel/btree.c: the levels of index nodes of a redirected path.
use tux3_fuse.Prelude.{
  ℕ, suc, ◌+◌, ◌≤◌, ◌<◌, ◌≡◌, refl, ◌∙◌, sym, Bool, true, false, Bool-cases, inl, inr, List, [],
  ◌∷◌, length, ◌==◌, arith,
}
use tux3_fuse.Log.Entry.{Entry}
use tux3_fuse.Btree.{Node}
use tux3_fuse.Btree.Cursor.{PathLevel, Path_}
use tux3_fuse.Btree.Insert.{write_node}
use tux3_fuse.Btree.Insert.Fits.{IsOff, IsNot}
use tux3_fuse.Btree.Insert.Divided.{apart_sym}
use tux3_fuse.Btree.Insert.Around.{Around-frame}
use tux3_fuse.Btree.Insert.Writes.{Agree-frame, IsStable-write}
use tux3_fuse.Btree.Redirect.{
  Redirection, unrooted, no_block, redirected, update_parent, redirect_level, next_level,
  redirect_path,
}
use tux3_fuse.Btree.Redirect.Parents.{
  AreApart, AreApart-new, update_parent-else, write_node-else, write_node-here,
}
use tux3_fuse.Btree.Redirect.Hung.{Hung, Stable, update_parent-Hung, Hung-level}

module _ (nodes : ℕ → Node) (leaf_at : ℕ → ℕ) (touched : ℕ → Bool) (new_leaf key limit : ℕ) where
  -- no buffer of a path, and no new block
  abbrev pub Off : ℕ → Path_ → List ℕ → Type 0
  Off i path fresh = IsOff i path × IsNot i fresh

  module _ (need leaf_need : ℕ → Bool) where
    -- Writable buffers: those of a path, and new blocks.
    abbrev pub ArePathReady : Path_ → Type 0
    ArePathReady [] = Unit {0}
    ArePathReady (at ∷ path) =
        (need at.buffer ≡ false) × (touched at.buffer ≡ true) × ArePathReady path

    abbrev pub AreReady : List ℕ → Type 0
    AreReady [] = Unit {0}
    AreReady (new ∷ fresh) =
        (need new ≡ false) × (touched new ≡ true) × (leaf_need new ≡ false) × AreReady fresh

    -- What is left to do below some levels that are done.
    abbrev pub IsRedirected :
        (fresh : List ℕ) (path : Path_) (levels block lo hi : ℕ) → Redirection → Type 0
    IsRedirected fresh path levels block lo hi unrooted = ⊥
    IsRedirected fresh path levels block lo hi (no_block now root path' calls deunify) =
        Hung nodes leaf_at touched new_leaf key limit root levels now path' block lo hi
        × Stable nodes leaf_at touched new_leaf key limit now
        × ((i : ℕ) → Off i path fresh → now i ≡ nodes i)
        × (length fresh < length path)
    IsRedirected fresh path levels block lo hi (redirected now root path' fresh' calls deunify) =
        Hung nodes leaf_at touched new_leaf key limit root levels now path' block lo hi
        × Stable nodes leaf_at touched new_leaf key limit now
        × ((i : ℕ) → Off i path fresh → now i ≡ nodes i)
        × ((i : ℕ) → Off i path fresh → Off i path' fresh')
        × AreApart path' fresh'
        × ArePathReady path'
        × AreReady fresh'
        × (length fresh ≤ length path + length fresh')

    redirect_level-IsRedirected :
        (at : PathLevel) (path : Path_) (fresh : List ℕ) (root levels block lo hi : ℕ)
        (h : Hung nodes leaf_at touched new_leaf key limit root levels nodes
          (at ∷ path)
          block
          lo
          hi)
        → AreApart (at ∷ path) fresh
        → touched at.buffer ≡ true
        → (now : ℕ → Node) (root' : ℕ) (path' : Path_) (new : ℕ) (fresh' : List ℕ)
          (calls : List Entry) (deunify : List ℕ)
        → IsRedirected fresh path
            (suc levels)
            at.buffer
            h.2
            h.3
            (redirected now root' path' (new ∷ fresh') calls deunify)
        → IsRedirected fresh
            (at ∷ path)
            levels
            block
            lo
            hi
            (redirect_level at new fresh' now root' path' calls deunify)
    unfolding redirect_level
    redirect_level-IsRedirected at path fresh root levels block lo hi h apart t now root' [] new
          fresh' calls deunify r =
        let (hung, stable, frame, off, apart', ready, new_ready, enough) = r in
        let (off_new, not_new, apart_) = AreApart-new [] new fresh' apart' in
        let copy = write_node-here now new (now at.buffer) ∙ frame at.buffer (apart.0, apart.1) in
        let now' = write_node now new (now at.buffer) in
        let same : (at.buffer == root') ≡ true = ground (arith, hung.0) in
        rw same (
          Hung-level nodes leaf_at touched new_leaf key limit root new levels nodes now' at path []
              new block lo hi h copy (refl, hung.1, hung.2),
          IsStable-write nodes leaf_at touched new_leaf key limit now now' new new
              (λ i b c. write_node-else now new (now at.buffer) i b) new_ready.1 new_ready.1 stable,
          λ i o.
              sym (
                write_node-else now new (now at.buffer) i
                  (apart_sym new i (off i (o.0.1, o.1)).1.0))
              ∙ frame i (o.0.1, o.1),
          λ i o. (((off i (o.0.1, o.1)).1.0, tt), (off i (o.0.1, o.1)).1.1),
          (tt, not_new, apart_),
          (new_ready.0, new_ready.1, tt),
          new_ready.3,
          omega (arith, enough),
        )
    redirect_level-IsRedirected at path fresh root levels block lo hi h apart t now root'
          (up ∷ path') new fresh' calls deunify r =
        let (hung, stable, frame, off, apart', ready, new_ready, enough) = r in
        let (off_new, not_new, apart_) = AreApart-new (up ∷ path') new fresh' apart' in
        let copy = write_node-here now new (now at.buffer) ∙ frame at.buffer (apart.0, apart.1) in
        let now₁ = write_node now new (now at.buffer) in
        let now₂ = update_parent now₁ up new in
        let same : (i : ℕ) → (i == new) ≡ false → (i == up.buffer) ≡ false → now i ≡ now₂ i =
          λ i b c.
            write_node-else now new (now at.buffer) i b ∙ update_parent-else now₁ up new i c in
        let hung₁ =
          Around-frame nodes leaf_at touched new_leaf key limit root' (suc levels) now now₁
            (up ∷ path') at.buffer h.2 h.3
            (Agree-frame nodes leaf_at touched new_leaf key limit now now₁ new new (up ∷ path')
              (λ i b c. write_node-else now new (now at.buffer) i b) off_new off_new)
            hung in
        (
          Hung-level nodes leaf_at touched new_leaf key limit root root' levels nodes now₂ at path
              (up ∷ path') new block lo hi h
              (sym (update_parent-else now₁ up new new (apart_sym up.buffer new off_new.0)) ∙ copy)
              (update_parent-Hung nodes leaf_at touched new_leaf key limit root' (suc levels) now₁
                up path' at.buffer new h.2 h.3 apart_.0 hung₁),
          IsStable-write nodes leaf_at touched new_leaf key limit now now₂ new up.buffer same
              new_ready.1 ready.1 stable,
          λ i o.
              let o' = off i (o.0.1, o.1) in
              sym (same i (apart_sym new i o'.1.0) (apart_sym up.buffer i o'.0.0))
              ∙ frame i (o.0.1, o.1),
          λ i o. let o' = off i (o.0.1, o.1) in ((o'.1.0, o'.0), o'.1.1),
          (off_new, not_new, apart_),
          (new_ready.0, new_ready.1, ready),
          new_ready.3,
          omega (arith, enough),
        )

    -- a level that stays
    kept-IsRedirected :
        (at : PathLevel) (path : Path_) (fresh : List ℕ) (root levels block lo hi : ℕ)
        (h : Hung nodes leaf_at touched new_leaf key limit root levels nodes
          (at ∷ path)
          block
          lo
          hi)
        → AreApart (at ∷ path) fresh
        → touched at.buffer ≡ true
        → need at.buffer ≡ false
        → (now : ℕ → Node) (root' : ℕ) (path' : Path_) (fresh' : List ℕ) (calls : List Entry)
          (deunify : List ℕ)
        → IsRedirected fresh path
            (suc levels)
            at.buffer
            h.2
            h.3
            (redirected now root' path' fresh' calls deunify)
        → IsRedirected fresh
            (at ∷ path)
            levels
            block
            lo
            hi
            (redirected now root' (at ∷ path') fresh' calls deunify)
    kept-IsRedirected at path fresh root levels block lo hi h apart t done now root' path' fresh'
          calls deunify r =
        let (hung, stable, frame, off, apart', ready, new, enough) = r in
        let (off_at, not_at) = off at.buffer (apart.0, apart.1) in
        (
          Hung-level nodes leaf_at touched new_leaf key limit root root' levels nodes now at path
              path' at.buffer block lo hi h (frame at.buffer (apart.0, apart.1)) hung,
          stable,
          λ i o. frame i (o.0.1, o.1),
          λ i o. ((o.0.0, (off i (o.0.1, o.1)).0), (off i (o.0.1, o.1)).1),
          (off_at, not_at, apart'),
          (done, t, ready),
          new,
          omega (arith, enough),
        )

    next_level-IsRedirected :
        (at : PathLevel) (path : Path_) (fresh : List ℕ) (root levels block lo hi : ℕ)
        (h : Hung nodes leaf_at touched new_leaf key limit root levels nodes
          (at ∷ path)
          block
          lo
          hi)
        → AreApart (at ∷ path) fresh
        → touched at.buffer ≡ true
        → (r : Redirection) → IsRedirected fresh path (suc levels) at.buffer h.2 h.3 r
        → IsRedirected fresh (at ∷ path) levels block lo hi (next_level need at r)
    unfolding next_level
    next_level-IsRedirected at path fresh root levels block lo hi h apart t unrooted r = elim r [ ]
    next_level-IsRedirected at path fresh root levels block lo hi h apart t
          (no_block now root' path' calls deunify) r =
        let (hung, stable, frame, few) = r in
        (
          Hung-level nodes leaf_at touched new_leaf key limit root root' levels nodes now at path
              path' at.buffer block lo hi h (frame at.buffer (apart.0, apart.1)) hung,
          stable,
          λ i o. frame i (o.0.1, o.1),
          omega (arith, few),
        )
    next_level-IsRedirected at path fresh root levels block lo hi h apart t
          (redirected now root' path' [] calls deunify) r =
        elim (Bool-cases (need at.buffer)) [
          | inl n ↦
              let (hung, stable, frame, off, apart', ready, new, enough) = r in
              rw n (
                Hung-level nodes leaf_at touched new_leaf key limit root root' levels nodes now at
                    path path' at.buffer block lo hi h (frame at.buffer (apart.0, apart.1)) hung,
                stable,
                λ i o. frame i (o.0.1, o.1),
                omega (arith, enough),
              )
          | inr n ↦ rw n (
              kept-IsRedirected at path fresh root levels block lo hi h apart t n now root' path' []
                calls deunify r)
        ]
    next_level-IsRedirected at path fresh root levels block lo hi h apart t
          (redirected now root' path' (new ∷ fresh') calls deunify) r =
        elim (Bool-cases (need at.buffer)) [
          | inl n ↦ rw n (
              redirect_level-IsRedirected at path fresh root levels block lo hi h apart t now root'
                path' new fresh' calls deunify r)
          | inr n ↦ rw n (
              kept-IsRedirected at path fresh root levels block lo hi h apart t n now root' path'
                (new ∷ fresh') calls deunify r)
        ]

    abbrev pub IsPathTouched : Path_ → Type 0
    IsPathTouched [] = Unit {0}
    IsPathTouched (at ∷ path) = (touched at.buffer ≡ true) × IsPathTouched path

    pub redirect_path-IsRedirected :
        (path : Path_) (fresh : List ℕ) (root levels block lo hi : ℕ)
        → Hung nodes leaf_at touched new_leaf key limit root levels nodes path block lo hi
        → AreApart path fresh
        → IsPathTouched path
        → AreReady fresh
        → IsRedirected fresh path levels block lo hi (redirect_path need fresh nodes root path)
    unfolding redirect_path
    redirect_path-IsRedirected [] fresh root levels block lo hi h apart t new =
        (h, (λ i e. refl), (λ i o. refl), (λ i o. o), apart, tt, new, omega arith)
    redirect_path-IsRedirected (at ∷ path) fresh root levels block lo hi h apart t new =
        next_level-IsRedirected at path fresh root levels block lo hi h apart t.0
          (redirect_path need fresh nodes root path)
          (redirect_path-IsRedirected path fresh root (suc levels) at.buffer h.2 h.3 h.10 apart.2
            t.1 new)
