-- ===== src/Log/Entry.antt =====
-- kernel/log.c: the log calls. An entry is a call with its arguments.
use tux3_fuse.Prelude.{
  not, ◌||◌, ap, ℕ, ◌<◌, ◌^◌, ◌≡◌, refl, List, [], ◌∷◌, ◌++◌, length, ◌%◌, ◌==◌, Bool, true, false,
}
use tux3_fuse.Codec.{encode16, encode32, encode48}
use tux3_fuse.Log.{
  false, true, Bool, Log, Code, log_size, code_of, log_begin, log_end, log_intent, log_u48,
  log_u16_u48, log_u32_u48, log_u48_u48, log_u16_u48_u48, log_u48_u48_u48,
}

pub data Entry : Type 0 where
  balloc bfree bfree_on_unify bfree_relog : (block count : ℕ) → Entry
  leaf_redirect bnode_redirect : (oldblock newblock : ℕ) → Entry
  leaf_free : (leaf : ℕ) → Entry
  bnode_root : (root count left right rkey : ℕ) → Entry
  bnode_split : (src pos dst : ℕ) → Entry
  bnode_add bnode_update : (parent child key : ℕ) → Entry
  bnode_merge : (src dst : ℕ) → Entry
  bnode_del : (bnode key count : ℕ) → Entry
  bnode_adjust : (bnode from to : ℕ) → Entry
  bnode_free : (bnode : ℕ) → Entry
  orphan_add orphan_del : (version inum : ℕ) → Entry
  freeblocks : (count : ℕ) → Entry
  unify delta : Entry

-- `assert(holds)`
abbrev pub check : Bool → Log → Log
check holds log = record log { asserted = log.asserted || not holds }

module _ (log : Log) where
  unfoldable pub log_balloc : ℕ → ℕ → Log
  unfolding log_u32_u48
  log_balloc block count = log_u32_u48 log Code.balloc count block

  unfoldable pub log_bfree : ℕ → ℕ → Log
  unfolding log_u32_u48
  log_bfree block count = log_u32_u48 log Code.bfree count block

  unfoldable pub log_bfree_on_unify : ℕ → ℕ → Log
  unfolding log_u32_u48
  log_bfree_on_unify block count = log_u32_u48 log Code.bfree_on_unify count block

  unfoldable pub log_bfree_relog : ℕ → ℕ → Log
  unfolding log_u32_u48
  log_bfree_relog block count = log_u32_u48 log Code.bfree_relog count block

  unfoldable pub log_leaf_redirect : ℕ → ℕ → Log
  unfolding log_u48_u48
  log_leaf_redirect oldblock newblock = log_u48_u48 log Code.leaf_redirect oldblock newblock

  unfoldable pub log_leaf_free : ℕ → Log
  unfolding log_u48
  log_leaf_free leaf = log_u48 log Code.leaf_free leaf

  unfoldable pub log_bnode_redirect : ℕ → ℕ → Log
  unfolding log_u48_u48
  log_bnode_redirect oldblock newblock = log_u48_u48 log Code.bnode_redirect oldblock newblock

  -- with the assert on the count
  unfoldable pub log_bnode_root : ℕ → ℕ → ℕ → ℕ → ℕ → Log
  unfolding log_begin log_end
  log_bnode_root root count left right rkey =
      log_end (check (count == 1 || count == 2) (log_begin log (log_size Code.bnode_root))) (
        code_of Code.bnode_root ∷ (count % 2 ^ 8) ∷ encode48 root
        ++ (encode48 left ++ (encode48 right ++ encode48 rkey)))

  unfoldable pub log_bnode_split : ℕ → ℕ → ℕ → Log
  unfolding log_u16_u48_u48
  log_bnode_split src pos dst = log_u16_u48_u48 log Code.bnode_split pos src dst

  unfoldable pub log_bnode_add : ℕ → ℕ → ℕ → Log
  unfolding log_u48_u48_u48
  log_bnode_add parent child key = log_u48_u48_u48 log Code.bnode_add parent child key

  unfoldable pub log_bnode_update : ℕ → ℕ → ℕ → Log
  unfolding log_u48_u48_u48
  log_bnode_update parent child key = log_u48_u48_u48 log Code.bnode_update parent child key

  unfoldable pub log_bnode_merge : ℕ → ℕ → Log
  unfolding log_u48_u48
  log_bnode_merge src dst = log_u48_u48 log Code.bnode_merge src dst

  unfoldable pub log_bnode_del : ℕ → ℕ → ℕ → Log
  unfolding log_u16_u48_u48
  log_bnode_del bnode key count = log_u16_u48_u48 log Code.bnode_del count bnode key

  unfoldable pub log_bnode_adjust : ℕ → ℕ → ℕ → Log
  unfolding log_u48_u48_u48
  log_bnode_adjust bnode from to = log_u48_u48_u48 log Code.bnode_adjust bnode from to

  unfoldable pub log_bnode_free : ℕ → Log
  unfolding log_u48
  log_bnode_free bnode = log_u48 log Code.bnode_free bnode

  unfoldable pub log_orphan_add : ℕ → ℕ → Log
  unfolding log_u16_u48
  log_orphan_add version inum = log_u16_u48 log Code.orphan_add version inum

  unfoldable pub log_orphan_del : ℕ → ℕ → Log
  unfolding log_u16_u48
  log_orphan_del version inum = log_u16_u48 log Code.orphan_del version inum

  unfoldable pub log_freeblocks : ℕ → Log
  unfolding log_u48
  log_freeblocks count = log_u48 log Code.freeblocks count

  unfoldable pub log_unify : Log
  unfolding log_intent
  log_unify = log_intent log Code.unify

  unfoldable pub log_delta : Log
  unfolding log_intent
  log_delta = log_intent log Code.delta

  -- the call that an entry stands for
  abbrev pub log_call : Entry → Log
  log_call (balloc block count) = log_balloc block count
  log_call (bfree block count) = log_bfree block count
  log_call (bfree_on_unify block count) = log_bfree_on_unify block count
  log_call (bfree_relog block count) = log_bfree_relog block count
  log_call (leaf_redirect oldblock newblock) = log_leaf_redirect oldblock newblock
  log_call (leaf_free leaf) = log_leaf_free leaf
  log_call (bnode_redirect oldblock newblock) = log_bnode_redirect oldblock newblock
  log_call (bnode_root root count left right rkey) = log_bnode_root root count left right rkey
  log_call (bnode_split src pos dst) = log_bnode_split src pos dst
  log_call (bnode_add parent child key) = log_bnode_add parent child key
  log_call (bnode_update parent child key) = log_bnode_update parent child key
  log_call (bnode_merge src dst) = log_bnode_merge src dst
  log_call (bnode_del bnode key count) = log_bnode_del bnode key count
  log_call (bnode_adjust bnode from to) = log_bnode_adjust bnode from to
  log_call (bnode_free bnode) = log_bnode_free bnode
  log_call (orphan_add version inum) = log_orphan_add version inum
  log_call (orphan_del version inum) = log_orphan_del version inum
  log_call (freeblocks count) = log_freeblocks count
  log_call unify = log_unify
  log_call delta = log_delta

-- the bytes that the call stores
abbrev pub stored : Entry → List ℕ
stored (balloc block count) = code_of Code.balloc ∷ encode32 count ++ encode48 block
stored (bfree block count) = code_of Code.bfree ∷ encode32 count ++ encode48 block
stored (bfree_on_unify block count) = code_of Code.bfree_on_unify ∷ encode32 count ++ encode48 block
stored (bfree_relog block count) = code_of Code.bfree_relog ∷ encode32 count ++ encode48 block
stored (leaf_redirect oldblock newblock) =
    code_of Code.leaf_redirect ∷ encode48 oldblock ++ encode48 newblock
stored (leaf_free leaf) = code_of Code.leaf_free ∷ encode48 leaf
stored (bnode_redirect oldblock newblock) =
    code_of Code.bnode_redirect ∷ encode48 oldblock ++ encode48 newblock
stored (bnode_root root count left right rkey) =
    code_of Code.bnode_root ∷ (count % 2 ^ 8) ∷ encode48 root
    ++ (encode48 left ++ (encode48 right ++ encode48 rkey))
stored (bnode_split src pos dst) =
    code_of Code.bnode_split ∷ encode16 (pos % 2 ^ 16) ++ (encode48 src ++ encode48 dst)
stored (bnode_add parent child key) =
    code_of Code.bnode_add ∷ encode48 parent ++ (encode48 child ++ encode48 key)
stored (bnode_update parent child key) =
    code_of Code.bnode_update ∷ encode48 parent ++ (encode48 child ++ encode48 key)
stored (bnode_merge src dst) = code_of Code.bnode_merge ∷ encode48 src ++ encode48 dst
stored (bnode_del bnode key count) =
    code_of Code.bnode_del ∷ encode16 (count % 2 ^ 16) ++ (encode48 bnode ++ encode48 key)
stored (bnode_adjust bnode from to) =
    code_of Code.bnode_adjust ∷ encode48 bnode ++ (encode48 from ++ encode48 to)
stored (bnode_free bnode) = code_of Code.bnode_free ∷ encode48 bnode
stored (orphan_add version inum) =
    code_of Code.orphan_add ∷ encode16 (version % 2 ^ 16) ++ encode48 inum
stored (orphan_del version inum) =
    code_of Code.orphan_del ∷ encode16 (version % 2 ^ 16) ++ encode48 inum
stored (freeblocks count) = code_of Code.freeblocks ∷ encode48 count
stored unify = code_of Code.unify ∷ []
stored delta = code_of Code.delta ∷ []

abbrev pub code : Entry → Code
code (balloc block count) = Code.balloc
code (bfree block count) = Code.bfree
code (bfree_on_unify block count) = Code.bfree_on_unify
code (bfree_relog block count) = Code.bfree_relog
code (leaf_redirect oldblock newblock) = Code.leaf_redirect
code (leaf_free leaf) = Code.leaf_free
code (bnode_redirect oldblock newblock) = Code.bnode_redirect
code (bnode_root root count left right rkey) = Code.bnode_root
code (bnode_split src pos dst) = Code.bnode_split
code (bnode_add parent child key) = Code.bnode_add
code (bnode_update parent child key) = Code.bnode_update
code (bnode_merge src dst) = Code.bnode_merge
code (bnode_del bnode key count) = Code.bnode_del
code (bnode_adjust bnode from to) = Code.bnode_adjust
code (bnode_free bnode) = Code.bnode_free
code (orphan_add version inum) = Code.orphan_add
code (orphan_del version inum) = Code.orphan_del
code (freeblocks count) = Code.freeblocks
code unify = Code.unify
code delta = Code.delta

-- The arguments fit the fields that they are stored in.
abbrev pub Fits : Entry → Type 0
Fits (balloc block count) = (count < 2 ^ 32) × (block < 2 ^ 48)
Fits (bfree block count) = (count < 2 ^ 32) × (block < 2 ^ 48)
Fits (bfree_on_unify block count) = (count < 2 ^ 32) × (block < 2 ^ 48)
Fits (bfree_relog block count) = (count < 2 ^ 32) × (block < 2 ^ 48)
Fits (leaf_redirect oldblock newblock) = (oldblock < 2 ^ 48) × (newblock < 2 ^ 48)
Fits (leaf_free leaf) = leaf < 2 ^ 48
Fits (bnode_redirect oldblock newblock) = (oldblock < 2 ^ 48) × (newblock < 2 ^ 48)
Fits (bnode_root root count left right rkey) =
    (root < 2 ^ 48) × (count < 2 ^ 8) × (left < 2 ^ 48) × (right < 2 ^ 48) × (rkey < 2 ^ 48)
Fits (bnode_split src pos dst) = (pos < 2 ^ 16) × (src < 2 ^ 48) × (dst < 2 ^ 48)
Fits (bnode_add parent child key) = (parent < 2 ^ 48) × (child < 2 ^ 48) × (key < 2 ^ 48)
Fits (bnode_update parent child key) = (parent < 2 ^ 48) × (child < 2 ^ 48) × (key < 2 ^ 48)
Fits (bnode_merge src dst) = (src < 2 ^ 48) × (dst < 2 ^ 48)
Fits (bnode_del bnode key count) = (count < 2 ^ 16) × (bnode < 2 ^ 48) × (key < 2 ^ 48)
Fits (bnode_adjust bnode from to) = (bnode < 2 ^ 48) × (from < 2 ^ 48) × (to < 2 ^ 48)
Fits (bnode_free bnode) = bnode < 2 ^ 48
Fits (orphan_add version inum) = (version < 2 ^ 16) × (inum < 2 ^ 48)
Fits (orphan_del version inum) = (version < 2 ^ 16) × (inum < 2 ^ 48)
Fits (freeblocks count) = count < 2 ^ 48
Fits unify = Unit {0}
Fits delta = Unit {0}

-- the assert of a log call: a new root has one entry or two
abbrev pub legal : Entry → Bool
legal (bnode_root root count left right rkey) = count == 1 || count == 2
legal _ = true

check-true : (log : Log) → log ≡ check true log
check-true log = ap (λ (b : Bool). record log { asserted = b }) (or_false log.asserted)
  where
    or_false : (b : Bool) → b ≡ b || false
    or_false true = refl
    or_false false = refl

-- Every call stores at the position that `log_begin` prepares for its size.
pub log_call-stored :
    (log : Log) (e : Entry)
    → log_call log e ≡ log_end (check (legal e) (log_begin log (log_size (code e)))) (stored e)
unfolding log_balloc log_bfree log_bfree_on_unify log_bfree_relog log_bnode_add log_bnode_adjust
    log_bnode_del log_bnode_free log_bnode_merge log_bnode_redirect log_bnode_root log_bnode_split
    log_bnode_update log_delta log_freeblocks log_leaf_free log_leaf_redirect log_orphan_add
    log_orphan_del log_unify
log_call-stored log (balloc block count) =
    ap (λ (l : Log). log_end l (stored (balloc block count)))
      (check-true (log_begin log (log_size (code (balloc block count)))))
log_call-stored log (bfree block count) =
    ap (λ (l : Log). log_end l (stored (bfree block count)))
      (check-true (log_begin log (log_size (code (bfree block count)))))
log_call-stored log (bfree_on_unify block count) =
    ap (λ (l : Log). log_end l (stored (bfree_on_unify block count)))
      (check-true (log_begin log (log_size (code (bfree_on_unify block count)))))
log_call-stored log (bfree_relog block count) =
    ap (λ (l : Log). log_end l (stored (bfree_relog block count)))
      (check-true (log_begin log (log_size (code (bfree_relog block count)))))
log_call-stored log (leaf_redirect oldblock newblock) =
    ap (λ (l : Log). log_end l (stored (leaf_redirect oldblock newblock)))
      (check-true (log_begin log (log_size (code (leaf_redirect oldblock newblock)))))
log_call-stored log (leaf_free leaf) =
    ap (λ (l : Log). log_end l (stored (leaf_free leaf)))
      (check-true (log_begin log (log_size (code (leaf_free leaf)))))
log_call-stored log (bnode_redirect oldblock newblock) =
    ap (λ (l : Log). log_end l (stored (bnode_redirect oldblock newblock)))
      (check-true (log_begin log (log_size (code (bnode_redirect oldblock newblock)))))
log_call-stored log (bnode_root root count left right rkey) = refl
log_call-stored log (bnode_split src pos dst) =
    ap (λ (l : Log). log_end l (stored (bnode_split src pos dst)))
      (check-true (log_begin log (log_size (code (bnode_split src pos dst)))))
log_call-stored log (bnode_add parent child key) =
    ap (λ (l : Log). log_end l (stored (bnode_add parent child key)))
      (check-true (log_begin log (log_size (code (bnode_add parent child key)))))
log_call-stored log (bnode_update parent child key) =
    ap (λ (l : Log). log_end l (stored (bnode_update parent child key)))
      (check-true (log_begin log (log_size (code (bnode_update parent child key)))))
log_call-stored log (bnode_merge src dst) =
    ap (λ (l : Log). log_end l (stored (bnode_merge src dst)))
      (check-true (log_begin log (log_size (code (bnode_merge src dst)))))
log_call-stored log (bnode_del bnode key count) =
    ap (λ (l : Log). log_end l (stored (bnode_del bnode key count)))
      (check-true (log_begin log (log_size (code (bnode_del bnode key count)))))
log_call-stored log (bnode_adjust bnode from to) =
    ap (λ (l : Log). log_end l (stored (bnode_adjust bnode from to)))
      (check-true (log_begin log (log_size (code (bnode_adjust bnode from to)))))
log_call-stored log (bnode_free bnode) =
    ap (λ (l : Log). log_end l (stored (bnode_free bnode)))
      (check-true (log_begin log (log_size (code (bnode_free bnode)))))
log_call-stored log (orphan_add version inum) =
    ap (λ (l : Log). log_end l (stored (orphan_add version inum)))
      (check-true (log_begin log (log_size (code (orphan_add version inum)))))
log_call-stored log (orphan_del version inum) =
    ap (λ (l : Log). log_end l (stored (orphan_del version inum)))
      (check-true (log_begin log (log_size (code (orphan_del version inum)))))
log_call-stored log (freeblocks count) =
    ap (λ (l : Log). log_end l (stored (freeblocks count)))
      (check-true (log_begin log (log_size (code (freeblocks count)))))
log_call-stored log unify =
    ap (λ (l : Log). log_end l (stored unify)) (check-true (log_begin log (log_size (code unify))))
log_call-stored log delta =
    ap (λ (l : Log). log_end l (stored delta)) (check-true (log_begin log (log_size (code delta))))

-- `log_size` is what the call stores, the code included.
pub length-stored : (e : Entry) → length (stored e) ≡ log_size (code e)
unfolding encode16 encode32 encode48
length-stored (balloc block count) = refl
length-stored (bfree block count) = refl
length-stored (bfree_on_unify block count) = refl
length-stored (bfree_relog block count) = refl
length-stored (leaf_redirect oldblock newblock) = refl
length-stored (leaf_free leaf) = refl
length-stored (bnode_redirect oldblock newblock) = refl
length-stored (bnode_root root count left right rkey) = refl
length-stored (bnode_split src pos dst) = refl
length-stored (bnode_add parent child key) = refl
length-stored (bnode_update parent child key) = refl
length-stored (bnode_merge src dst) = refl
length-stored (bnode_del bnode key count) = refl
length-stored (bnode_adjust bnode from to) = refl
length-stored (bnode_free bnode) = refl
length-stored (orphan_add version inum) = refl
length-stored (orphan_del version inum) = refl
length-stored (freeblocks count) = refl
length-stored unify = refl
length-stored delta = refl
