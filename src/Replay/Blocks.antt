-- ===== src/Replay/Blocks.antt =====
-- kernel/replay.c: the replay of the log blocks that a cycle of log calls left.
use tux3_fuse.Prelude.{
  subst, ℕ, ◌+◌, ◌≤◌, ◌≡◌, refl, ap, ◌∙◌, sym, Bool, Option, none, some, List, [], ◌∷◌, ◌++◌, map,
  arith, length, Bool-cases, inl, inr,
}
use native.Mathlib.Nat.{sub-zero}
use tux3_fuse.Log.{log_finish, Code, LogBlock}
use tux3_fuse.Log.Entry.{Entry, code}
use tux3_fuse.Log.Holds.{
  bytes_of, BlockHolds, BlocksHold, concat, log_calls, empty_log, log_finish-log_calls,
}
use tux3_fuse.Replay.{
  Handlers, Found, Result, done, einval, overrun, failed, replay_log_stage1, replay_logblocks,
  stage1_acts, stage1_case, after_case, after_pass, pass,
}
use tux3_fuse.Replay.Loop.{AllFit, run_entries, replay_loop-entries}

AllFit-append : (xs ys : List Entry) → AllFit (xs ++ ys) → AllFit xs × AllFit ys
AllFit-append [] ys h = (tt, h)
AllFit-append (x ∷ xs) ys h = let (p, q) = AllFit-append xs ys h.1 in ((h.0, p), q)

module _ {S : Type 0} (acts : Code → Bool) (perform : Entry → S → S × Option ℕ) where
  case-append :
      (xs ys : List Entry) (r : S × Option ℕ)
      → ((s : S)
          → run_entries acts perform (xs ++ ys) s
            ≡ after_pass (run_entries acts perform ys) (run_entries acts perform xs s))
      → after_case (run_entries acts perform (xs ++ ys)) r
        ≡ after_pass (run_entries acts perform ys) (after_case (run_entries acts perform xs) r)
  case-append xs ys (s, none) ih = ih s
  case-append xs ys (s, some e) ih = refl

  run_entries-append :
      (xs ys : List Entry) (s : S)
      → run_entries acts perform (xs ++ ys) s
        ≡ after_pass (run_entries acts perform ys) (run_entries acts perform xs s)
  unfolding run_entries
  run_entries-append [] ys s = refl
  run_entries-append (x ∷ xs) ys s = elim (Bool-cases (acts (code x))) [
    | inl acting ↦ rw acting (case-append xs ys (perform x s) (run_entries-append xs ys))
    | inr skipping ↦ rw skipping (run_entries-append xs ys s)
  ]

  pass-holds :
      (found : Found) (h : Handlers S) (space : ℕ) (b : LogBlock) (es : List Entry) (s : S)
      → BlockHolds space b es
      → AllFit es
      → pass h found acts perform (some 0) b s ≡ run_entries acts perform es s
  pass-holds found h space b es s holds fit =
      rw (holds.leads, holds.counts, sub-zero (length (bytes_of es)))
        (replay_loop-entries acts perform es _ _ s fit (omega arith))

after_pass-same :
    {S : Type 0} (next next' : S → S × Result) (r : S × Result)
    → ((s : S) → next s ≡ next' s)
    → after_pass next r ≡ after_pass next' r
after_pass-same next next' (s, done) h = h s
after_pass-same next next' (s, einval) h = refl
after_pass-same next next' (s, overrun) h = refl
after_pass-same next next' (s, failed e) h = refl

-- the blocks with any addresses
abbrev pub blocks_of : List (ℕ × LogBlock) → List LogBlock
blocks_of = map (λ e. e.1)

module _ {S : Type 0} (h : Handlers S) (unify_pos : ℕ) where
  abbrev no_unify : Found
  no_unify = record { unify_index = none; unify_pos = unify_pos }

  stage1_blocks :
      (blocks : List (ℕ × LogBlock)) (ess : List (List Entry)) (space lognext : ℕ) (s : S)
      → BlocksHold space (blocks_of blocks) ess
      → AllFit (concat ess)
      → replay_logblocks (replay_log_stage1 h no_unify) lognext blocks s
        ≡ run_entries stage1_acts (stage1_case h) (concat ess) s
  unfolding replay_logblocks replay_log_stage1 run_entries
  stage1_blocks [] [] space lognext s holds fit = refl
  stage1_blocks [] (es ∷ ess) space lognext s holds fit = absurd holds
  stage1_blocks (b ∷ blocks) [] space lognext s holds fit = absurd holds
  stage1_blocks ((blocknr, b) ∷ blocks) (es ∷ ess) space lognext s holds fit =
      let (here, later) = AllFit-append es (concat ess) fit in
      ap (after_pass (replay_logblocks (replay_log_stage1 h no_unify) (lognext + 1) blocks))
        (pass-holds stage1_acts (stage1_case h) no_unify h space b es s holds.0 here)
      ∙ after_pass-same _ _ (run_entries stage1_acts (stage1_case h) es s)
          (λ s'. stage1_blocks blocks ess space (lognext + 1) s' holds.1 later)
      ∙ sym (run_entries-append stage1_acts (stage1_case h) es (concat ess) s)

  -- Stage 1 over the log blocks of a finished cycle without unify mark, wherever the blocks were put,
  -- performs what its cases say for the logged entries, in the order in which they were logged.
  pub replay_logblocks-log_calls :
      (space : ℕ) (es : List Entry) (blocks : List (ℕ × LogBlock)) (s : S)
      → 26 ≤ space
      → AllFit es
      → blocks_of blocks ≡ (log_finish (log_calls (empty_log space) es)).done
      → replay_logblocks (replay_log_stage1 h no_unify) 0 blocks s
        ≡ run_entries stage1_acts (stage1_case h) es s
  replay_logblocks-log_calls space es blocks s room fit same =
      let (closed, (ess, holds, e)) = log_finish-log_calls space es room in
      stage1_blocks blocks ess (log_finish (log_calls (empty_log space) es)).space 0 s
        (subst (λ bs. BlocksHold (log_finish (log_calls (empty_log space) es)).space bs ess)
          (sym same) holds)
        (subst AllFit e fit)
      ∙ ap (λ es. run_entries stage1_acts (stage1_case h) es s) (sym e)
