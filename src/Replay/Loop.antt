-- ===== src/Replay/Loop.antt =====
-- kernel/replay.c: a pass over what the log calls stored is a run of the entries, in order.
use tux3_fuse.Prelude.{
  ℕ, zero, suc, ◌-◌, ◌≤◌, ◌<◌, ◌≡◌, refl, ap, ◌∙◌, sym, Bool, false, Option, none, some, List, [],
  ◌∷◌, ◌++◌, arith, length, length-append, drop, Bool-cases, inl, inr, if◌then◌else◌, ◌==◌,
}
use mathlib.Core.List.{append_assoc}
use tux3_fuse.Log.{Code, log_size, code_of}
use tux3_fuse.Log.Entry.{Entry, stored, code, Fits, length-stored}
use tux3_fuse.Log.Holds.{bytes_of}
use tux3_fuse.Replay.{Result, done, replay_loop, replay_case, after_case}
use tux3_fuse.Replay.Decode.{fields, stored-fields, code_at-code_of, decode_entry-fields}

abbrev pub AllFit : List Entry → Type 0
AllFit [] = Unit {0}
AllFit (e ∷ es) = Fits e × AllFit es

pub drop-append {ℓ} : {A : Type ℓ} (xs ys : List A) → drop (length xs) (xs ++ ys) ≡ ys
drop-append [] ys = refl
drop-append (x ∷ xs) ys = drop-append xs ys

pub log_size-pos : (c : Code) → 1 ≤ log_size c
log_size-pos c = ground arith

pub length-fields : (e : Entry) → suc (length (fields e)) ≡ log_size (code e)
length-fields e = ap length (sym (stored-fields e)) ∙ length-stored e

module _ {S : Type 0} (acts : Code → Bool) (perform : Entry → S → S × Option ℕ) where
  -- The specification: perform the entries that the stage acts on, one after the other, up to the first
  -- error.
  unfoldable pub run_entries : List Entry → S → S × Result
  run_entries [] s = (s, done)
  run_entries (e ∷ es) s =
      let rest = run_entries es in if acts (code e) then after_case rest (perform e s) else rest s

  after_case-same :
      (next next' : S → S × Result) (r : S × Option ℕ)
      → ((s : S) → next s ≡ next' s)
      → after_case next r ≡ after_case next' r
  after_case-same next next' (s, none) h = h s
  after_case-same next next' (s, some e) h = refl

  module _ (e : Entry) (rest : List ℕ) (fits : Fits e) (next : ℕ → List ℕ → S → S × Result) where
    replay_case-entry :
        (s : S)
        → replay_case acts perform next s (code e) (fields e ++ rest) ≡ (
            if acts (code e)
            then after_case (next (length (fields e)) rest) (perform e s)
            else next (length (fields e)) rest s)
    replay_case-entry s = elim (Bool-cases (acts (code e))) [
      | inl acting ↦ rw (acting, decode_entry-fields e rest fits, consumed) refl
      | inr skipping ↦ rw (skipping, sym size, drop-append (fields e) rest) refl
    ]
      where
        consumed : length (fields e ++ rest) - length rest ≡ length (fields e)
        consumed = omega (arith, length-append (fields e) rest)

        size : length (fields e) ≡ log_size (code e) - 1
        size = omega (arith, length-fields e)

  replay_loop-step :
      (fuel limit : ℕ) (c : Code) (at : List ℕ) (s : S)
      → 0 < limit
      → replay_loop acts perform (suc fuel) limit (code_of c ∷ at) s
        ≡ replay_case acts perform (λ n. replay_loop acts perform fuel (limit - 1 - n)) s c at
  unfolding replay_loop
  replay_loop-step fuel limit c at s h =
      let more : (limit == 0) ≡ false = ground arith in rw (more, code_at-code_of c) refl

  replay_loop-cons :
      (e : Entry) (es : List Entry) (fuel : ℕ) (pad : List ℕ) (s : S)
      → Fits e
      → ((s : S)
          → replay_loop acts perform fuel (length (bytes_of es)) (bytes_of es ++ pad) s
            ≡ run_entries es s)
      → replay_loop acts perform
          (suc fuel)
          (length (stored e ++ bytes_of es))
          ((stored e ++ bytes_of es) ++ pad)
          s
        ≡ run_entries (e ∷ es) s
  unfolding run_entries
  replay_loop-cons e es fuel pad s fit ih =
      start
      ∙ replay_loop-step fuel (suc (length (fields e ++ bytes_of es))) (code e)
          (fields e ++ (bytes_of es ++ pad)) s (omega arith)
      ∙ replay_case-entry e (bytes_of es ++ pad) fit
          (λ n. replay_loop acts perform fuel (suc (length (fields e ++ bytes_of es)) - 1 - n)) s
      ∙ rw left (elim (Bool-cases (acts (code e))) [
        | inl acting ↦ rw acting (after_case-same _ _ (perform e s) ih)
        | inr skipping ↦ rw skipping (ih s)
      ])
    where
      start :
          replay_loop acts perform
            (suc fuel)
            (length (stored e ++ bytes_of es))
            ((stored e ++ bytes_of es) ++ pad)
            s
          ≡ replay_loop acts perform
              (suc fuel)
              (suc (length (fields e ++ bytes_of es)))
              (code_of (code e) ∷ (fields e ++ (bytes_of es ++ pad)))
              s
      start =
          ap
            (λ l.
              replay_loop acts perform (suc fuel) (length (l ++ bytes_of es))
                ((l ++ bytes_of es) ++ pad) s)
            (stored-fields e)
          ∙ ap
              (λ l.
                replay_loop acts perform (suc fuel) (suc (length (fields e ++ bytes_of es)))
                  (code_of (code e) ∷ l) s)
              (append_assoc (fields e) (bytes_of es) pad)

      left : suc (length (fields e ++ bytes_of es)) - 1 - length (fields e) ≡ length (bytes_of es)
      left = omega (arith, length-append (fields e) (bytes_of es))

  -- A pass over the bytes that the log calls of `es` stored, followed by anything, performs the entries
  -- that the stage acts on, in order, steps over the others, and ends with the first error or at the end
  -- of the data: no code is unknown and no read leaves the data. The arguments fit their fields.
  pub replay_loop-entries :
      (es : List Entry) (fuel : ℕ) (pad : List ℕ) (s : S)
      → AllFit es
      → length (bytes_of es) < fuel
      → replay_loop acts perform fuel (length (bytes_of es)) (bytes_of es ++ pad) s
        ≡ run_entries es s
  unfolding replay_loop run_entries
  replay_loop-entries es zero pad s fit h = absurd (omega arith)
  replay_loop-entries [] (suc fuel) [] s fit h = refl
  replay_loop-entries [] (suc fuel) (x ∷ pad) s fit h = refl
  replay_loop-entries (e ∷ es) (suc fuel) pad s fit h =
      replay_loop-cons e es fuel pad s fit.0 (λ s'. replay_loop-entries es fuel pad s' fit.1 (
        omega
          (arith, length-stored e, log_size-pos (code e), length-append (stored e) (bytes_of es))))
